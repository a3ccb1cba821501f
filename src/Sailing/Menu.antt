-- ===== src/Sailing/Menu.antt =====
-- The menus of Structured_Programming/main.c: `menu_manager` and `name_select`. The keys are a list;
-- an answer `none` means that the player has still to press one.
pub mod Select
pub mod Name
use university_collection.Prelude.{
  ℕ, zero, suc, ◌+◌, ◌-◌, Bool, true, false, not, ◌&&◌, ◌||◌, leb, ltb,
}
use university_collection.Prelude.{◌==◌, if◌then◌else◌, Option, none, some, List, [], ◌∷◌}
use university_collection.Sailing.State.{Game, update_row}

abbrev pub enter : ℕ
enter = 13

abbrev pub esc : ℕ
esc = 27

-- A round of the loop of `menu_manager` before the menu is printed: the selection, or `none` for
-- the return of -1.
unfoldable pub menu_step : (previous next min max selection input : ℕ) → Option ℕ
menu_step previous next min max selection input =
    if input == previous
    then some (if selection == min then selection else selection - 1)
    else if input == next
    then some (if selection == max then selection else selection + 1)
    else if input == esc
    then none
    else some selection

-- The loop, from the round for `input` on. Beside the result: the keys that are left.
unfoldable pub menu_loop :
    (previous next min max selection input : ℕ) → List ℕ → Option (Option ℕ × List ℕ)
menu_loop previous next min max selection input [] =
    elim (menu_step previous next min max selection input) [
      | none ↦ some (none, [])
      | some s ↦ none
    ]
menu_loop previous next min max selection input (key ∷ keys) =
    elim (menu_step previous next min max selection input) [
      | none ↦ some (none, key ∷ keys)
      | some s ↦
          let again = menu_loop previous next min max s key keys in
          if key == enter then some (some s, keys) else again
    ]

unfoldable pub menu_manager : (previous next min max : ℕ) → List ℕ → Option (Option ℕ × List ℕ)
menu_manager previous next min max keys = menu_loop previous next min max min 0 keys

abbrev pub is_letter : ℕ → Bool
is_letter c = leb 65 c && leb c 90 || leb 97 c && leb c 122

-- The name of the player whose turn it is, and the `position` in it.
pub record Entry : Type 0 where
  pub game : Game
  pub position : ℕ

-- `names[player_turn-1][i] = c`
abbrev pub write_name : Game → ℕ → ℕ → Game
write_name g i c = record g { names = update_row g.names (g.player_turn - 1) i c }

-- A round of the loop of `name_select`; `none` is for ESC.
unfoldable pub name_step : Entry → ℕ → Option Entry
name_step e input =
    if is_letter input
    then some (
        if e.position == 10
        then e
        else record e { game = write_name e.game e.position input; position = e.position + 1 })
    else if input == 8
    then some (
        if e.position == 0
        then e
        else record e { game = write_name e.game (e.position - 1) 0; position = e.position - 1 })
    else if input == esc
    then none
    else some e

-- The loop, from the round for `input` on. Enter on an empty name calls `name_select` again, which
-- begins with no input. The flag is set at the return, and clear for ESC.
unfoldable pub name_loop : Entry → ℕ → List ℕ → Option ((Game × Bool) × List ℕ)
name_loop e input [] = elim (name_step e input) [
  | none ↦ some ((e.game, false), [])
  | some f ↦ none
]
name_loop e input (key ∷ keys) = elim (name_step e input) [
  | none ↦ some ((e.game, false), key ∷ keys)
  | some f ↦
      let again = name_loop f key keys in
      let anew = name_loop (record f { position = 0 }) 0 keys in
      if key == enter
      then (if f.position == 0 then anew else some ((f.game, true), keys))
      else again
]

unfoldable pub name_select : Game → List ℕ → Option ((Game × Bool) × List ℕ)
name_select g keys = name_loop (record { game = g; position = 0 }) 0 keys
