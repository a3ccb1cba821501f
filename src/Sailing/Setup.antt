-- ===== src/Sailing/Setup.antt =====
-- Setting up a game in Structured_Programming/main.c: the shores of the lake, the ships at the
-- start, and the counters that `sailing` resets.
pub mod Shores
pub mod Start
pub mod Launch
use university_collection.Prelude.{
  ℕ, zero, suc, ◌+◌, ◌-◌, ◌*◌, Bool, true, false, ◌==◌, if◌then◌else◌,
}
use university_collection.Prelude.{Option, some, List, [], ◌∷◌}
use university_collection.Prelude.Int.{ℤ, pos, incr}
use university_collection.Sailing.Lake.{Lake, put, sea, land, columns, ship_code}
use university_collection.Sailing.State.{Game, update}
use university_collection.Sailing.Round.{setfinishline, fill4, for4}
use university_collection.Sailing.Wind.{is_kind}

-- `for n rounds from x: lake[line][x] = f lake[line][x]`
unfoldable pub fill_line : (ℕ → ℕ) → (line n x : ℕ) → Lake → Lake
fill_line f line zero x l = l
fill_line f line (suc n) x l = fill_line f line n (suc x) (put l line x (f (l line x)))

-- `set_lake_line`: 0 everywhere, then land from `start` up to `end`, then sea where a 0 is left.
unfoldable pub set_lake_line : (line start end : ℕ) → Lake → Lake
set_lake_line line start end l =
    fill_line (λ v. if v == 0 then sea else v) line columns 0
      (fill_line (λ _. land) line (end - start) start (fill_line (λ _. 0) line columns 0 l))

-- Calls of `set_lake_line` for consecutive lines from `line` on, by their `start` and `end`.
unfoldable pub set_lines : ℕ → List (ℕ × ℕ) → Lake → Lake
set_lines line [] l = l
set_lines line ((start, end) ∷ rest) l = set_lines (suc line) rest (set_lake_line line start end l)

-- The calls in `lake_reset`, which are for the lines 0 to 24 in order.
abbrev pub shores : List (ℕ × ℕ)
shores =
    (0, 0)
    ∷ (0, 0)
    ∷ (17, 40)
    ∷ (15, 46)
    ∷ (14, 47)
    ∷ (13, 48)
    ∷ (12, 55)
    ∷ (5, 58)
    ∷ (1, 59)
    ∷ (8, 59)
    ∷ (15, 60)
    ∷ (16, 60)
    ∷ (17, 60)
    ∷ (17, 57)
    ∷ (18, 50)
    ∷ (18, 49)
    ∷ (19, 39)
    ∷ (24, 37)
    ∷ (0, 0)
    ∷ (0, 0)
    ∷ (0, 0)
    ∷ (0, 0)
    ∷ (0, 0)
    ∷ (0, 0)
    ∷ (0, 0)
    ∷ []

unfoldable pub lake_reset : Lake → Lake
unfolding set_lines
lake_reset l = setfinishline (set_lines 0 shores l)

-- `set_players`: the loop from player `i` on, with the left cell of his ship in `cursor`.
unfoldable pub place_ships : (n i cursor : ℕ) → Lake → Lake
place_ships zero i cursor l = l
place_ships (suc n) i cursor l =
    place_ships n (suc i) (cursor + 4)
      (put (put l 11 cursor (ship_code (i + 1))) 11 (cursor + 1) (ship_code (i + 1)))

unfoldable pub set_players : ℕ → Lake → Lake
unfolding place_ships
set_players players l = place_ships players 0 0 l

-- The first lines of `sailing`.
unfoldable pub reset_state : Game → Game
reset_state g = record g {
  alive = fill4 g.alive true;
  lives = fill4 g.lives (pos 1);
  wreckship = fill4 g.wreckship (0, 0);
  wreckcounter = fill4 g.wreckcounter 0;
  player_turn = 1;
}

-- A third kind of ship has one life more.
unfoldable pub extra_life : ℕ → Game → Game
extra_life i g =
    if is_kind 2 (g.ships i) then record g { lives = update g.lives i (incr (g.lives i)) } else g

-- What `sailing` does between the choice of the ships and the first round.
unfoldable pub launch : ℕ → Game → Game
unfolding lake_reset set_players extra_life
launch players g = for4 extra_life (record g { lake = set_players players (lake_reset g.lake) })
