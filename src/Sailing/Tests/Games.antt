-- ===== src/Sailing/Tests/Games.antt =====
-- The theorems about the start of a game and its rounds, at small ones.
use university_collection.Prelude.{Option, some, true, ℕ, ◌<◌, ◌≡◌, refl, List, [], ◌∷◌, arith}
use university_collection.Sailing.State.{Game}
use university_collection.Sailing.Setup.{reset_state, launch}
use university_collection.Sailing.Setup.Start.{InLine}
use university_collection.Sailing.Setup.Launch.{first_lives, launch_lem}
use university_collection.Sailing.Program.{main_menu}
use university_collection.Sailing.Program.Ends.{Closed, main_menu-Closed}
use university_collection.Sailing.Match.{count_dead, game_loop}
use university_collection.Sailing.Match.Ends.{Decided, game_loop-Decided}
use university_collection.Sailing.Tests.Boards.{harbour, game_on, dice}

-- Both players confirm an empty course.
abbrev confirmed : List ℕ
confirmed = 13 ∷ 13 ∷ []

nobody_dead : 0 ≡ count_dead 2 0 (game_on harbour)
unfolding count_dead
nobody_dead = refl

game_loop-Decided_example : Decided 2 (game_loop dice 2 1 3 0 (game_on harbour) confirmed)
game_loop-Decided_example =
    game_loop-Decided dice 2 1 3 0 (game_on harbour) confirmed nobody_dead (omega arith)

-- Player 3 takes the third kind of ship.
abbrev fleet_kinds : ℕ → Option ℕ
fleet_kinds p = some p

abbrev no_names : ℕ → ℕ → ℕ
no_names p i = 0

abbrev chosen : Game
chosen = record (reset_state (game_on harbour)) { ships = fleet_kinds; names = no_names }

launch_lem_example :
    InLine (launch 3 chosen).lake 3
    × ((i : ℕ)
        → i < 4
        → ((launch 3 chosen).lives i ≡ first_lives (some i))
          × ((launch 3 chosen).alive i ≡ true)
          × ((launch 3 chosen).wreckcounter i ≡ 0))
launch_lem_example = launch_lem (game_on harbour) 3 fleet_kinds no_names (omega arith)

-- Play, the first level, one player, the first ship, the name A, an empty course, ESC at the next one.
abbrev one_game : List ℕ
one_game = 13 ∷ 13 ∷ 13 ∷ 13 ∷ 65 ∷ 13 ∷ 13 ∷ 27 ∷ []

main_menu-Closed_example : Closed (main_menu dice 9 (game_on harbour) one_game)
main_menu-Closed_example = main_menu-Closed dice 9 (game_on harbour) one_game (omega arith)
