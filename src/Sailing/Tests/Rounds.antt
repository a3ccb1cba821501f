-- ===== src/Sailing/Tests/Rounds.antt =====
-- The theorems about a round of the game: planning, wind, wrecks, the console, the finish line, and
-- about the start of a game.
use university_collection.Prelude.{ℕ, ◌+◌, ◌-◌, ◌≤◌, ◌<◌, ◌≡◌, refl, ◌⊎◌, false, true, arith}
use university_collection.Prelude.{some, List, [], ◌∷◌, ◌&&◌, ◌||◌, ltb, if◌then◌else◌, ◌==◌}
use university_collection.Sailing.Lake.{finish}
use university_collection.Sailing.Lake.Fleet.{IsAbsent}
use university_collection.Sailing.State.{Game}
use university_collection.Sailing.Screen.{setpreview, printchange, InSync, printchange-InSync}
use university_collection.Sailing.Wind.{Rng, scaled, chances, wrap_dir, windchange, windcheck}
use university_collection.Sailing.Wind.Change.{IsDirection, max_speed, windchange_bounds}
use university_collection.Sailing.Course.{Draft, declaremove, max_moves}
use university_collection.Sailing.Course.Trail.{Trail, IsNavigable}
use university_collection.Sailing.Ships.Clear.{up}
use university_collection.Sailing.Course.Keys.{IsDraft}
use university_collection.Sailing.Course.Plan.{IsTyping, ship_row, ship_column, declaremove_lem}
use university_collection.Sailing.Round.{clear_previews, wincheck, moveplayers}
use university_collection.Sailing.Ships.Keep.{Keeps}
use university_collection.Sailing.Round.Keep.{moveplayers-Keeps}
use university_collection.Sailing.Round.Win.{clear_previews-IsAbsent}
use university_collection.Sailing.Lake.{sea}
use university_collection.Sailing.Round.{for4}
use university_collection.Sailing.Turn.{tick_wreck}
use university_collection.Sailing.Turn.Wrecks.{runs_out}
use university_collection.Sailing.Turn.Countdown.{sinks, countdown_lem}
use university_collection.Sailing.Setup.{lake_reset, shores}
use university_collection.Sailing.Setup.Shores.{extent, shore_at, lake_reset_lem}
use university_collection.Sailing.Tests.Boards.{harbour, cliff, home, game_on, dice, first-IsPlayer}
use university_collection.Sailing.Tests.Boards.{harbour-Fleet, home-Ship}

-- Two steps up, one back and one to the right.
abbrev typed : List ℕ
typed = 72 ∷ 72 ∷ 80 ∷ 77 ∷ []

typed-IsTyping : IsTyping typed
typed-IsTyping = omega arith

declaremove_lem_example :
    (e : Draft) × (declaremove (game_on harbour) (72 ∷ 72 ∷ 80 ∷ 77 ∷ 13 ∷ 5 ∷ [])
      ≡ some (e, 5 ∷ []))
    × IsDraft harbour 1
        (max_moves (game_on harbour))
        (ship_row harbour 1)
        (ship_column harbour 1)
        (λ p k. 0)
        e
declaremove_lem_example =
    declaremove_lem (game_on harbour) typed (5 ∷ []) first-IsPlayer harbour-Fleet (λ k h. refl)
      typed-IsTyping

-- A wreck whose counter has come to 1, at the left end of row 5.
abbrev wrecked : Game
wrecked = record (game_on harbour) {
  wreckship = λ p. if p == 0 then (5, 9) else (0, 0);
  wreckcounter = λ p. if p == 0 then 1 else 0;
}

countdown_lem_example :
    ((j : ℕ)
      → j < 4
      → ((for4 tick_wreck wrecked).wreckcounter j ≡ wrecked.wreckcounter j - 1)
        × ((for4 tick_wreck wrecked).wreckship j
            ≡ (if runs_out wrecked j then (0, 0) else wrecked.wreckship j)))
    × ((r c : ℕ)
        → (for4 tick_wreck wrecked).lake r c ≡ (
            if sinks wrecked 0 r c
              || sinks wrecked 1 r c
              || sinks wrecked 2 r c
              || sinks wrecked 3 r c
            then sea
            else wrecked.lake r c))
countdown_lem_example = countdown_lem wrecked

lake_reset_lem_example :
    lake_reset harbour 7 20
    ≡ (if 7 == 6 && ltb 20 12 then finish else shore_at (extent shores 7) 20)
lake_reset_lem_example = lake_reset_lem harbour 7 20 (omega arith) (omega arith)

-- A course up the right border, past row 8.
abbrev upwards : ℕ → ℕ
upwards k = 1

reset_row_8 : IsNavigable (lake_reset harbour) 8 62
reset_row_8 =
    let left = lake_reset_lem harbour 8 62 (omega arith) (omega arith) in
    let right = lake_reset_lem harbour 8 63 (omega arith) (omega arith) in
    record {
      left_land = ground (arith, left);
      left_wreck = ground (arith, left);
      right_land = ground (arith, right);
      right_wreck = ground (arith, right);
    }

reset_row_7 : IsNavigable (lake_reset harbour) 7 62
reset_row_7 =
    let left = lake_reset_lem harbour 7 62 (omega arith) (omega arith) in
    let right = lake_reset_lem harbour 7 63 (omega arith) (omega arith) in
    record {
      left_land = ground (arith, left);
      left_wreck = ground (arith, left);
      right_land = ground (arith, right);
      right_wreck = ground (arith, right);
    }

border_course : Trail (lake_reset harbour) upwards 9 62 2 7 62
border_course = (
  8,
  62,
  (9, 62, (refl, refl), up refl refl refl, reset_row_8, omega arith),
  up refl refl refl,
  reset_row_7,
  omega arith,
)

windchange_bounds_example :
    IsDirection (windchange dice (game_on harbour) 2).wind_dir
    × ((windchange dice (game_on harbour) 2).wind_spd < max_speed 2)
    × ((game_on harbour).cur_round ≡ 0 → (windchange dice (game_on harbour) 2).wind_spd ≡ 0)
    × (2 ≤ 1
        → ((windchange dice (game_on harbour) 2).wind_dir ≡ (game_on harbour).wind_dir)
          ⊎ ((windchange dice (game_on harbour) 2).wind_dir ≡ wrap_dir (1 + 1))
          ⊎ ((windchange dice (game_on harbour) 2).wind_dir ≡ wrap_dir (1 - 1)))
windchange_bounds_example =
    windchange_bounds dice (game_on harbour) 2 (omega arith, omega arith) (omega arith)

high_draw : 90 ≤ scaled dice 0 100
unfolding scaled
high_draw = omega arith

abbrev ones : Rng
ones = record { rand_max = 32767; value = λ k. 0; value_le = λ k. omega arith }

blown : (windcheck ones (game_on harbour) 1).1 ≡ true
unfolding windcheck scaled chances
blown = ground arith

abbrev harbour_changed : Game
harbour_changed = record (setpreview (game_on harbour)) { lake = cliff }

printchange-InSync_example : InSync (printchange harbour_changed)
unfolding setpreview
printchange-InSync_example =
    printchange-InSync (game_on harbour) harbour_changed (λ r c h. refl) refl refl

moveplayers-Keeps_example :
    Keeps harbour (moveplayers dice 2 (game_on harbour)).0.lake
    × ((i : ℕ) → i < 4 → (moveplayers dice 2 (game_on harbour)).0.savedpos i ≡ (0, 0))
moveplayers-Keeps_example =
    moveplayers-Keeps dice 2 (game_on harbour) (omega arith) refl harbour-Fleet

clear_previews-IsAbsent_example :
    IsAbsent (clear_previews (game_on home)).lake 1
    × ((wincheck (clear_previews (game_on home))).0.winners 0 ≡ false)
clear_previews-IsAbsent_example =
    clear_previews-IsAbsent (game_on home) 1 4 first-IsPlayer home-Ship (omega arith)
