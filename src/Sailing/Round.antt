-- ===== src/Sailing/Round.antt =====
-- The moves of a round of Structured_Programming/main.c: `moveplayers` in eight phases, with
-- `wincheck`, `resetsavedpos` and `setfinishline`.
pub mod Win
pub mod Saved
pub mod Show
pub mod Calm
pub mod Keep
use university_collection.Prelude.{
  ℕ, zero, suc, ◌+◌, ◌-◌, ◌/◌, ◌%◌, Bool, true, false, not, ◌&&◌, ◌||◌,
}
use university_collection.Prelude.{ltb, leb, ◌==◌, if◌then◌else◌, Option, none, some, List}
use university_collection.Sailing.Lake.{Lake, put, sea, finish, ship_code, findship, sweep}
use university_collection.Sailing.State.{Game, update, update_row}
use university_collection.Sailing.Screen.{setpreview, printchange}
use university_collection.Sailing.Ships.{is_set, moveto}
use university_collection.Sailing.Wind.{Rng, windcheck, windchange}
use university_collection.Sailing.Course.{declaremove}

-- `for i < 4: a[i] = v`
abbrev pub fill4 {ℓ} : {A : Type ℓ} → (ℕ → A) → A → ℕ → A
fill4 a v = update (update (update (update a 0 v) 1 v) 2 v) 3 v

-- `for i < 4: body`
abbrev pub for4 {ℓ} : {A : Type ℓ} → (ℕ → A → A) → A → A
for4 body g = body 3 (body 2 (body 1 (body 0 g)))

-- `setfinishline`: the first `n` columns of row 6, and both branches of its test write the same.
unfoldable pub finish_cells : ℕ → ℕ → Lake → Lake
finish_cells zero i l = l
finish_cells (suc n) i l =
    finish_cells n (suc i) (if i % 2 == 0 then put l 6 i finish else put l 6 i finish)

unfoldable pub setfinishline : Lake → Lake
unfolding finish_cells
setfinishline l = finish_cells 12 0 l

-- The planned courses become sea again.
unfoldable pub clear_previews : Game → Game
clear_previews g =
    let h = setpreview g in
    printchange (record h {
      lake = setfinishline (sweep (λ y x v. if v % 1000 == 178 then sea else v) h.lake);
    })

-- A ship is on the finish line.
abbrev pub is_home : Lake → ℕ → Bool
is_home l p = findship l p / 100 == 6 && leb (findship l p % 100) 11

unfoldable pub note_winner : ℕ → Game → Game
note_winner i g =
    if is_home g.lake (i + 1) then record g { winners = update g.winners i true } else g

-- `wincheck`, with the state that it leaves.
unfoldable pub wincheck : Game → Game × Bool
unfolding note_winner
wincheck g =
    let h = for4 note_winner g in (h, h.winners 0 || h.winners 1 || h.winners 2 || h.winners 3)

-- The loop over the players in a phase carries `affectedbywind` beside the state.
abbrev pub Phase : Type 0
Phase = Game × (ℕ → Bool)

-- A ship that the wind takes moves with the wind, and twice if that was its own way.
unfoldable pub move_ship : Rng → (phase x : ℕ) → Game → Game × Bool
move_ship rng i x g =
    let r = windcheck rng g (x + 1) in
    let taken = r.1 in
    let double = taken && r.0.wind_dir == r.0.playermovements x i in
    let g1 =
      if taken
      then record r.0 { playermovements = update_row r.0.playermovements x i r.0.wind_dir }
      else r.0 in
    let g2 = moveto g1 (g1.playermovements x i) (x + 1) in
    let g3 = if double then moveto g2 g2.wind_dir (x + 1) else g2 in (g3, taken)

-- What follows the move: the flag for a ship with no further move, and the move taken off.
unfoldable pub end_move : (phase x : ℕ) → Game → Game
end_move i x g =
    let over = not (i == 7) && g.playermovements x (i + 1) == 0 in
    let h = if over then record g { donemoving = update g.donemoving x true } else g in
    record h { playermovements = update_row h.playermovements x i 0 }

unfoldable pub move_player : Rng → (phase x : ℕ) → Phase → Phase
move_player rng i x (g, affected) =
    let r = move_ship rng i x g in
    if g.alive x
    then (end_move i x r.0, if r.1 then update affected x true else affected)
    else (g, affected)

-- `for x < players`
unfoldable pub move_all : Rng → (phase n x : ℕ) → Phase → Phase
unfolding move_player
move_all rng i zero x s = s
move_all rng i (suc n) x s = move_all rng i n (suc x) (move_player rng i x s)

-- The places of the ships that the wind took, by the right one of their cells.
unfoldable pub save_place : (ℕ → Bool) → ℕ → Game → Game
save_place affected i g =
    let found = findship g.lake (i + 1) in
    if affected i && g.alive i
    then record g { savedpos = update g.savedpos i (found / 100, found % 100 + 1) }
    else g

abbrev pub is_saved : Game → ℕ → Bool
is_saved g i = is_set (g.savedpos i).0 || is_set (g.savedpos i).1

-- `lake[savedpos[i][0]][savedpos[i][1]] = v` and the cell to its left.
abbrev pub paint_saved : Game → ℕ → ℕ → Lake
paint_saved g i v =
    put (put g.lake (g.savedpos i).0 (g.savedpos i).1 v) (g.savedpos i).0 ((g.savedpos i).1 - 1) v

unfoldable pub mark_place : ℕ → Game → Game
mark_place i g = if is_saved g i && g.alive i then record g { lake = paint_saved g i 7219 } else g

unfoldable pub reset_place : ℕ → Game → Game
reset_place i g =
    if is_saved g i
    then record g {
      lake = paint_saved g i (ship_code (i + 1));
      savedpos = update g.savedpos i (0, 0);
    }
    else g

unfoldable pub resetsavedpos : Game → Game
unfolding reset_place
resetsavedpos g = printchange (for4 reset_place (setpreview g))

-- The part of a phase that shows which ships the wind took.
unfoldable pub show_wind : (ℕ → Bool) → Game → Game
unfolding save_place mark_place resetsavedpos
show_wind affected g =
    let saved = printchange (for4 (save_place affected) g) in
    resetsavedpos (printchange (for4 mark_place (setpreview saved)))

-- The phases from `i` on; the flag says that a winner ended the loop.
unfoldable pub run_phases : Rng → (players n i : ℕ) → Game → Game × Bool
run_phases rng players zero i g = (g, false)
run_phases rng players (suc n) i g =
    let w = wincheck g in
    let s = move_all rng i players 0 (setpreview w.0, λ _. false) in
    let rest = run_phases rng players n (suc i) (show_wind s.1 s.0) in
    if w.1 then (w.0, true) else rest

unfoldable pub moveplayers : Rng → ℕ → Game → Game × Bool
unfolding run_phases
moveplayers rng players g =
    run_phases rng players 8 0 (clear_previews (record g { savedpos = fill4 g.savedpos (0, 0) }))
