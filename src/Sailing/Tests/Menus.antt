-- ===== src/Sailing/Tests/Menus.antt =====
-- The theorems about the menus, at typed keys.
use university_collection.Prelude.{ℕ, ◌≤◌, ◌≡◌, ◌≢◌, ◌⊎◌, true, arith}
use university_collection.Prelude.{some, List, [], ◌∷◌, ◌++◌}
use university_collection.Sailing.State.{Game}
use university_collection.Sailing.Menu.{name_select, enter}
use university_collection.Sailing.Menu.Select.{IsBrowsing}
use university_collection.Sailing.Menu.Name.{Shows, type_keys, name_select_lem}
use university_collection.Sailing.Tests.Boards.{open_sea, game_on}

-- Down, down, up, another key and down, in a menu of three.
abbrev browsing : List ℕ
browsing = 80 ∷ 80 ∷ 72 ∷ 1 ∷ 80 ∷ []

browsing-IsBrowsing : IsBrowsing browsing
browsing-IsBrowsing = omega arith

-- A, b, Backspace, c.
abbrev typing : List ℕ
typing = 65 ∷ 98 ∷ 8 ∷ 99 ∷ []

some_letters : type_keys [] typing ≢ []
some_letters = ground arith

name_select_lem_example :
    (h : Game) × (name_select (game_on open_sea) (typing ++ enter ∷ 5 ∷ [])
      ≡ some ((h, true), 5 ∷ []))
    × Shows (h.names 0) (99 ∷ 65 ∷ [])
    × (2 ≤ 10)
    × ((i : ℕ) → (5 ≤ i) ⊎ (10 ≤ i) → h.names 0 i ≡ 0)
    × ((p i : ℕ) → p ≢ 0 → h.names p i ≡ 0)
name_select_lem_example =
    name_select_lem (game_on open_sea) typing (5 ∷ []) (omega arith) some_letters
