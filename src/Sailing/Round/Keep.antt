-- ===== src/Sailing/Round/Keep.antt =====
-- What `moveplayers` of Structured_Programming/main.c keeps, over all its phases.
use university_collection.Prelude.{ℕ, zero, suc, ◌+◌, ◌*◌, ◌/◌, ◌≤◌, ◌<◌, ◌≡◌, refl, ap, ◌∙◌}
use university_collection.Prelude.{Bool, false, not, ◌&&◌, ◌==◌, if◌then◌else◌, if_elim, arith}
use university_collection.Prelude.{subst}
use university_collection.Sailing.Lake.{Lake, ship_code}
use university_collection.Sailing.Lake.Fleet.{IsPlayer, Covers, Fleet, ship_code_lem}
use university_collection.Sailing.State.{Game, update_row}
use university_collection.Sailing.Screen.{setpreview, printchange}
use university_collection.Sailing.Ships.{moveto}
use university_collection.Sailing.Ships.Keep.{Keeps, Keeps-trans, moveto-Keeps}
use university_collection.Sailing.Wind.{Rng, windcheck}
use university_collection.Sailing.Round.{
  fill4, clear_previews, is_home, note_winner, wincheck, Phase, move_ship, end_move, move_player,
}
use university_collection.Sailing.Round.{move_all, show_wind, run_phases, moveplayers}
use university_collection.Sailing.Round.Win.{cleared, clear_previews_lem}
use university_collection.Sailing.Round.Saved.{for4-induction}
use university_collection.Sailing.Round.Show.{show_wind-Keeps}
use university_collection.Sailing.Round.Calm.{moveto-Calm, show_wind-flags}

-- Between two moves, for a lake that was `l`: the fleet is a fleet, nothing outside the lake is
-- written, no place is saved, and the flag behind the end of `donemoving` is clear.
record AtSea (l : Lake) (g : Game) : Type 0 where
  keeps : Keeps l g.lake
  saved : (i : ℕ) → i < 4 → g.savedpos i ≡ (0, 0)
  clear : g.donemoving 4 ≡ false

module _ (l : Lake) (p : ℕ) (i : IsPlayer p) where
  moveto-AtSea : (g : Game) (direction : ℕ) → AtSea l g → AtSea l (moveto g direction p)
  moveto-AtSea g direction a =
      let c = moveto-Calm g.donemoving g direction p (record { flags = refl; places = a.saved }) in
      record {
        keeps = Keeps-trans a.keeps (moveto-Keeps g direction p i a.clear a.keeps.fleet);
        saved = c.places;
        clear = ap (λ d. d 4) c.flags ∙ a.clear;
      }

move_ship-AtSea :
    (rng : Rng) (phase x : ℕ) (l : Lake) (g : Game)
    → x < 4
    → AtSea l g
    → AtSea l (move_ship rng phase x g).0
unfolding move_ship windcheck
move_ship-AtSea rng phase x l g few a =
    let i : IsPlayer (x + 1) = omega arith in
    let r = windcheck rng g (x + 1) in
    let taken = r.1 in
    let g1 =
      if taken
      then record r.0 { playermovements = update_row r.0.playermovements x phase r.0.wind_dir }
      else r.0 in
    let at_one : AtSea l g1 =
      if_elim (AtSea l) taken _ _
        (λ _. record { keeps = a.keeps; saved = a.saved; clear = a.clear })
        (λ _. record { keeps = a.keeps; saved = a.saved; clear = a.clear }) in
    let at_two = moveto-AtSea l (x + 1) i g1 (g1.playermovements x phase) at_one in
    if_elim (AtSea l) (taken && r.0.wind_dir == r.0.playermovements x phase) _ _
      (λ _. moveto-AtSea l (x + 1) i _ _ at_two) (λ _. at_two)

abbrev InSea : Lake → Phase → Type 0
InSea l s = AtSea l s.0

end_move-AtSea :
    (phase x : ℕ) (l : Lake) (g : Game) → x < 4 → AtSea l g → AtSea l (end_move phase x g)
unfolding end_move
end_move-AtSea phase x l g few a = record {
  keeps =
      if_elim (λ (h : Game). Keeps l h.lake)
        (not (phase == 7) && g.playermovements x (phase + 1) == 0) _ _ (λ _. a.keeps)
        (λ _. a.keeps);
  saved = λ i h.
      if_elim (λ (k : Game). k.savedpos i ≡ (0, 0))
        (not (phase == 7) && g.playermovements x (phase + 1) == 0) _ _ (λ _. a.saved i h)
        (λ _. a.saved i h);
  clear =
      if_elim (λ (k : Game). k.donemoving 4 ≡ false)
        (not (phase == 7) && g.playermovements x (phase + 1) == 0) _ _
        (λ _. ground (arith, a.clear)) (λ _. a.clear);
}

move_player-AtSea :
    (rng : Rng) (phase x : ℕ) (l : Lake) (s : Phase)
    → x < 4
    → InSea l s
    → InSea l (move_player rng phase x s)
unfolding move_player
move_player-AtSea rng phase x l (g, affected) few a =
    if_elim (InSea l) (g.alive x) _ _
      (λ _. end_move-AtSea phase x l _ few (move_ship-AtSea rng phase x l g few a)) (λ _. a)

move_all-AtSea :
    (rng : Rng) (phase n x : ℕ) (l : Lake) (s : Phase)
    → x + n ≤ 4
    → InSea l s
    → InSea l (move_all rng phase n x s)
unfolding move_all
move_all-AtSea rng phase zero x l s few a = a
move_all-AtSea rng phase (suc n) x l s few a =
    move_all-AtSea rng phase n (suc x) l (move_player rng phase x s) (omega arith)
      (move_player-AtSea rng phase x l s (omega arith) a)

show_wind-AtSea :
    (affected : ℕ → Bool) (l : Lake) (g : Game) → AtSea l g → AtSea l (show_wind affected g)
show_wind-AtSea affected l g a =
    let k = show_wind-Keeps affected g a.keeps.fleet a.saved in
    record {
      keeps = Keeps-trans a.keeps k.0;
      saved = k.1;
      clear = ap (λ d. d 4) (show_wind-flags affected g) ∙ a.clear;
    }

note_winner-AtSea : (l : Lake) (i : ℕ) (g : Game) → AtSea l g → AtSea l (note_winner i g)
unfolding note_winner
note_winner-AtSea l i g a =
    if_elim (AtSea l) (is_home g.lake (i + 1)) _ _
      (λ _. record { keeps = a.keeps; saved = a.saved; clear = a.clear }) (λ _. a)

wincheck-AtSea : (l : Lake) (g : Game) → AtSea l g → AtSea l (wincheck g).0
unfolding wincheck
wincheck-AtSea l g a =
    for4-induction (λ i. AtSea l) note_winner g a (λ i h few b. note_winner-AtSea l i h b)

run_phases-AtSea :
    (rng : Rng) (players n phase : ℕ) (l : Lake) (g : Game)
    → players ≤ 4
    → AtSea l g
    → AtSea l (run_phases rng players n phase g).0
unfolding run_phases setpreview
run_phases-AtSea rng players zero phase l g few a = a
run_phases-AtSea rng players (suc n) phase l g few a =
    let w = wincheck-AtSea l g a in
    let s = move_all rng phase players 0 (setpreview (wincheck g).0, λ _. false) in
    let moved : AtSea l s.0 =
      move_all-AtSea rng phase players 0 l _ (omega arith)
        (record { keeps = w.keeps; saved = w.saved; clear = w.clear }) in
    if_elim (λ (r : Game × Bool). AtSea l r.0) (wincheck g).1 _ _ (λ _. w)
      (λ _.
        run_phases-AtSea rng players n (suc phase) l (show_wind s.1 s.0) few
          (show_wind-AtSea s.1 l s.0 moved))

-- A ship's cell after the lake is cleared was one before, and not on the finish line.
cleared-Covers :
    (l m : Lake) (p r c : ℕ)
    → ((r' c' : ℕ) → m r' c' ≡ cleared l r' c')
    → IsPlayer p
    → Covers m p r c
    → Covers l p r c × ((r ≡ 6) → 12 ≤ c)
cleared-Covers l m p r c same i h = (
  record {
    row = h.row;
    column = h.column;
    code = ground (arith, same r c, h.code, ship_code_lem p i);
  },
  λ e. ground (arith, same r c, h.code, ship_code_lem p i),
)

-- Such a cell is kept.
cleared-kept :
    (l m : Lake) (p r c : ℕ)
    → ((r' c' : ℕ) → m r' c' ≡ cleared l r' c')
    → IsPlayer p
    → l r c ≡ ship_code p
    → ((r ≡ 6) → 12 ≤ c)
    → m r c ≡ ship_code p
cleared-kept l m p r c same i e off = ground (arith, same r c, e, off, ship_code_lem p i)

cleared-Keeps : (l m : Lake) → ((r c : ℕ) → m r c ≡ cleared l r c) → Fleet l → Keeps l m
cleared-Keeps l m same f = record {
  fleet = record {
    whole = λ p r c i h.
        let old = cleared-Covers l m p r c same i h in
        let w = f.whole p r c i old.0 in
        (
          cleared-kept l m p r (2 * (c / 2)) same i w.0 (λ e. omega (arith, old.1 e)),
          cleared-kept l m p r (2 * (c / 2) + 1) same i w.1 (λ e. omega (arith, old.1 e)),
        );
    single = λ p r c s d i h k.
        f.single p r c s d i (cleared-Covers l m p r c same i h).0
          (cleared-Covers l m p s d same i k).0;
  };
  outside = λ r c h. same r c ∙ ground arith;
}

clear_previews-AtSea :
    (l : Lake) (g : Game)
    → ((i : ℕ) → i < 4 → g.savedpos i ≡ (0, 0))
    → g.donemoving 4 ≡ false
    → Fleet g.lake
    → g.lake ≡ l
    → AtSea l (clear_previews g)
clear_previews-AtSea l g zero_saved clear f e = record {
  keeps =
      subst (λ m. Keeps m (clear_previews g).lake) e
        (cleared-Keeps g.lake (clear_previews g).lake (clear_previews_lem g).0 f);
  saved = unfold clear_previews setpreview printchange in zero_saved;
  clear = unfold clear_previews setpreview printchange in clear;
}

-- Whatever the players have planned and the wind does, `moveplayers` leaves a fleet a fleet: every
-- ship that is on the lake covers whole pairs of columns, and no player has two. It writes only inside
-- the lake, and no place is saved after it. There are four players at most, and the flag behind the
-- end of `donemoving`, which `crashcheck` reads where no ship is hit, is clear.
pub moveplayers-Keeps :
    (rng : Rng) (players : ℕ) (g : Game)
    → players ≤ 4
    → g.donemoving 4 ≡ false
    → Fleet g.lake
    → Keeps g.lake (moveplayers rng players g).0.lake
      × ((i : ℕ) → i < 4 → (moveplayers rng players g).0.savedpos i ≡ (0, 0))
unfolding moveplayers
moveplayers-Keeps rng players g few clear f =
    let start : Game = record g { savedpos = fill4 g.savedpos (0, 0) } in
    let done =
      run_phases-AtSea rng players 8 0 g.lake (clear_previews start) few
        (clear_previews-AtSea g.lake start (λ i h. ground arith) clear f refl) in
    (done.keeps, done.saved)
