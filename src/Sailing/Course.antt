-- ===== src/Sailing/Course.antt =====
-- `declaremove` of Structured_Programming/main.c: a player plans a course with the arrow keys and
-- ends with Enter; a step back takes the last move away, and Q takes all away.
pub mod Trail
pub mod Keys
pub mod Plan
use university_collection.Prelude.{
  ℕ, zero, suc, ◌+◌, ◌-◌, ◌/◌, ◌%◌, Bool, true, false, not, ◌&&◌, ◌||◌,
}
use university_collection.Prelude.{ltb, ◌==◌, if◌then◌else◌, Option, none, some, List, [], ◌∷◌}
use university_collection.Sailing.Lake.{Lake, put, put_pair, path_code, findship, sweep}
use university_collection.Sailing.State.{Game, update, update_row}
use university_collection.Sailing.Screen.{setpreview, printchange}
use university_collection.Sailing.Ships.{is_terrain}
use university_collection.Sailing.Wind.{is_kind}

-- The locals of `declaremove` that change: `moves` and `cursor`.
pub record Draft : Type 0 where
  pub game : Game
  pub moves : ℕ
  pub cy : ℕ
  pub cx : ℕ

-- `setmovements`: the planned course is drawn, but not over a ship.
unfoldable pub setmovements : Game → ℕ → ℕ → Game
setmovements g cy cx =
    if g.lake cy cx % 1000 == 219
    then g
    else record g { lake = put_pair g.lake cy cx (path_code g.player_turn) }

-- `unsetmovements`
unfoldable pub unsetmovements : Game → Lake → ℕ → ℕ → Game
unsetmovements g backup cy cx = record g {
  lake = put (put g.lake cy cx (backup cy cx)) cy (cx + 1) (backup cy (cx + 1));
}

-- `playermovements[player_turn-1][i] = code`
abbrev pub record_move : Game → ℕ → ℕ → Game
record_move g i code = record g {
  playermovements = update_row g.playermovements (g.player_turn - 1) i code;
}

-- The last planned move goes the other way.
abbrev pub is_undo : Draft → ℕ → Bool
is_undo d opposite =
    not (d.moves == 0) && d.game.playermovements (d.game.player_turn - 1) (d.moves - 1) == opposite

-- The cursor may move on to the cells `(ny, nx)` and `(ny, nx + 1)`.
abbrev pub is_passable : Lake → ℕ → ℕ → Bool
is_passable l ny nx = not (is_terrain (l ny nx)) && not (is_terrain (l ny (nx + 1)))

-- The case of an arrow key inside the lake: `(ny, nx)` is the place that the cursor moves to, and
-- `own` and `opposite` the codes of this direction and of the other way.
unfoldable pub arrow : Lake → (maxmoves : ℕ) → Draft → (opposite own ny nx : ℕ) → Draft
arrow backup maxmoves d opposite own ny nx =
    let undone = record d {
      game = unsetmovements (record_move d.game (d.moves - 1) 0) backup d.cy d.cx;
      moves = d.moves - 1;
      cy = ny;
      cx = nx;
    } in
    let done = record d {
      game = record_move (setmovements d.game ny nx) d.moves own;
      moves = d.moves + 1;
      cy = ny;
      cx = nx;
    } in
    if is_undo d opposite
    then undone
    else if ltb d.moves maxmoves && is_passable d.game.lake ny nx
    then done
    else d

-- The case of Q: back to the ship, the lake as it was, and no move.
unfoldable pub clear_course : Lake → Draft → Draft
clear_course backup d =
    let p = d.game.player_turn in
    record {
      game = record d.game {
        lake = sweep (λ y x _. backup y x) d.game.lake;
        playermovements =
            update d.game.playermovements (p - 1)
              (λ i. if ltb i 8 then 0 else d.game.playermovements (p - 1) i);
      };
      moves = 0;
      cy = findship d.game.lake p / 100;
      cx = findship d.game.lake p % 100;
    }

-- The `switch` of `declaremove`: up, down, left, right and Q.
unfoldable pub choose : Lake → ℕ → Draft → ℕ → Draft
choose backup maxmoves d key =
    if key == 72
    then (if d.cy == 0 then d else arrow backup maxmoves d 3 1 (d.cy - 1) d.cx)
    else if key == 80
    then (if d.cy == 24 then d else arrow backup maxmoves d 1 3 (d.cy + 1) d.cx)
    else if key == 75
    then (if ltb 1 d.cx then arrow backup maxmoves d 2 4 d.cy (d.cx - 2) else d)
    else if key == 77
    then (if ltb d.cx 61 then arrow backup maxmoves d 4 2 d.cy (d.cx + 2) else d)
    else if key == 113
    then clear_course backup d
    else d

-- A round of the loop, with the redrawing around it.
unfoldable pub press : Lake → ℕ → Draft → ℕ → Draft
press backup maxmoves d key =
    let e = choose backup maxmoves (record d { game = setpreview d.game }) key in
    record e { game = printchange e.game }

-- The loop, from the round for `input` on; `none` means that the player has still to press a key.
-- Beside the draft: the keys that are left.
unfoldable pub declare_loop : Lake → ℕ → Draft → ℕ → List ℕ → Option (Draft × List ℕ)
declare_loop backup maxmoves d input [] = none
declare_loop backup maxmoves d input (key ∷ keys) =
    let e = press backup maxmoves d input in
    let rest = declare_loop backup maxmoves e key keys in if key == 13 then some (e, keys) else rest

-- `maxmoves`
unfoldable pub max_moves : Game → ℕ
max_moves g = if is_kind 1 (g.ships (g.player_turn - 1)) then 6 + 2 else 6

unfoldable pub draft : Game → Draft
draft g = record {
  game = g;
  moves = 0;
  cy = findship g.lake g.player_turn / 100;
  cx = findship g.lake g.player_turn % 100;
}

unfoldable pub declaremove : Game → List ℕ → Option (Draft × List ℕ)
declaremove g keys = declare_loop g.lake (max_moves g) (draft g) 0 keys
