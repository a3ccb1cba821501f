-- ===== src/Sailing/Program.antt =====
-- The screens of Structured_Programming/main.c that lead to one another: `ship_select` with the names,
-- `sailing` and `main_menu`. They call each other without end, so they have fuel.
pub mod Keys
pub mod Ends
use university_collection.Prelude.{ℕ, zero, suc, ◌+◌, Bool, true, false, ◌==◌, if◌then◌else◌}
use university_collection.Prelude.{Option, none, some, List, [], ◌∷◌}
use university_collection.Sailing.State.{Game, update}
use university_collection.Sailing.Wind.{Rng}
use university_collection.Sailing.Setup.{reset_state, launch}
use university_collection.Sailing.Menu.{enter, menu_manager, name_select}
use university_collection.Sailing.Match.{Match, waiting, over, game_loop}
use university_collection.Sailing.Match as Match

abbrev left_arrow : ℕ
left_arrow = 75

abbrev right_arrow : ℕ
right_arrow = 77

abbrev up_arrow : ℕ
up_arrow = 72

abbrev down_arrow : ℕ
down_arrow = 80

-- How a call ends: the player has still to press a key; `exit(0)`; or it returns, with the flag for the
-- result 1 of `sailing` and the keys that are left; or the fuel is used up.
pub data Run : Type 0 where
  waits : Run
  exits : Run
  returns : Game → Bool → List ℕ → Run
  out_of_fuel : Run

-- What follows a call.
unfoldable pub and_then : Run → (Game → Bool → List ℕ → Run) → Run
and_then waits next = waits
and_then exits next = exits
and_then (returns g won keys) next = next g won keys
and_then out_of_fuel next = out_of_fuel

-- What follows a call of `menu_manager`: `back` at -1, and `next` at a selection.
unfoldable pub picked :
    Option (Option ℕ × List ℕ) → (back : List ℕ → Run) → (next : ℕ → List ℕ → Run) → Run
picked none back next = waits
picked (some (none, keys)) back next = back keys
picked (some (some choice, keys)) back next = next choice keys

-- A call of `name_select`, which returns what `sailing`, here `again`, returns at ESC.
unfoldable pub named : Option ((Game × Bool) × List ℕ) → (again : Game → List ℕ → Run) → Run
named none again = waits
named (some ((g, true), keys)) again = returns g false keys
named (some ((g, false), keys)) again = again g keys

-- `ship_select` for `n` players from `i` on. What `name_select` returns is not looked at.
unfoldable pub ship_select : (again : Game → List ℕ → Run) → (n i : ℕ) → Game → List ℕ → Run
ship_select again zero i g keys = returns g false keys
ship_select again (suc n) i g keys =
    picked (menu_manager left_arrow right_arrow 0 2 keys)
      (λ rest. again (record g { ships = update g.ships i none }) rest)
      (λ kind rest.
        and_then
          (named (name_select (record g { ships = update g.ships i (some kind) }) rest) again)
          (λ h _ left.
            ship_select again n (suc i) (record h { player_turn = h.player_turn + 1 }) left))

-- What the loop of `sailing` comes to.
unfoldable pub played : Match → Run
played waiting = waits
played (over g won keys) = returns g won keys
played Match.out_of_fuel = out_of_fuel

-- `getchar` on the console: it takes the keys up to Enter.
unfoldable pub getchar : List ℕ → Option (List ℕ)
getchar [] = none
getchar (key ∷ keys) = let later = getchar keys in if key == enter then some keys else later

-- The end of `winscreen` and `defeatscreen`, which call `main` and so `main_menu`, here `menu`.
unfoldable pub shown : Option (List ℕ) → (menu : List ℕ → Run) → Run
shown none menu = waits
shown (some keys) menu = menu keys

unfoldable mutual
  -- `sailing`. What `ship_select` returns is not looked at.
  pub sailing : Rng → (fuel : ℕ) → Game → List ℕ → Run
  sailing rng zero g keys = out_of_fuel
  sailing rng (suc fuel) g keys =
      picked (menu_manager up_arrow down_arrow 0 2 keys)
        (λ rest. main_menu rng fuel (reset_state g) rest)
        (λ difficulty rest.
          picked (menu_manager down_arrow up_arrow 1 4 rest)
            (λ left. sailing rng fuel (reset_state g) left)
            (λ players left.
              and_then (ship_select (λ h ks. sailing rng fuel h ks) players 0 (reset_state g) left)
                (λ h _ last.
                  played (game_loop rng players difficulty fuel 0 (launch players h) last))))

  pub main_menu : Rng → (fuel : ℕ) → Game → List ℕ → Run
  main_menu rng zero g keys = out_of_fuel
  main_menu rng (suc fuel) g keys =
      picked (menu_manager up_arrow down_arrow 0 1 keys) (λ rest. main_menu rng fuel g rest)
        (λ choice rest.
          if choice == 0
          then and_then (sailing rng fuel g rest)
              (λ h _ left. shown (getchar left) (λ last. main_menu rng fuel h last))
          else exits)
