-- ===== src/Sailing/Menu/Select.antt =====
-- What `menu_manager` of Structured_Programming/main.c returns.
use university_collection.Prelude.{ℕ, ◌+◌, ◌-◌, ◌≤◌, ◌≡◌, ap, ◌∙◌, ◌≢◌}
use university_collection.Prelude.{ltb, ◌==◌, if◌then◌else◌}
use university_collection.Prelude.{≢→==, arith}
use university_collection.Prelude.{none, some, List, [], ◌∷◌, ◌++◌}
use university_collection.Sailing.Menu.{enter, esc, menu_step, menu_loop, menu_manager}

-- Keys that neither confirm nor leave a menu.
abbrev pub IsBrowsing : List ℕ → Type 0
IsBrowsing [] = Unit
IsBrowsing (key ∷ keys) = (key ≢ enter) × (key ≢ esc) × IsBrowsing keys

-- The selection as a number that is moved by one and kept between its bounds.
abbrev pub moved : (previous next min max selection key : ℕ) → ℕ
moved previous next min max selection key =
    if key == previous
    then (if ltb min selection then selection - 1 else min)
    else if key == next
    then (if ltb selection max then selection + 1 else max)
    else selection

abbrev browse : (previous next min max selection : ℕ) → List ℕ → ℕ
browse previous next min max selection [] = selection
browse previous next min max selection (key ∷ keys) =
    browse previous next min max (moved previous next min max selection key) keys

module _ (previous next min max : ℕ) where
  step-browsing :
      (s key : ℕ)
      → min ≤ s
      → s ≤ max
      → key ≢ esc
      → menu_step previous next min max s key ≡ some (moved previous next min max s key)
  unfolding menu_step
  step-browsing s key lo hi other = ground arith

  moved_bounds :
      (s key : ℕ)
      → min ≤ s
      → s ≤ max
      → (min ≤ moved previous next min max s key) × (moved previous next min max s key ≤ max)
  moved_bounds s key lo hi = ground arith

  browse_bounds :
      (s : ℕ) (keys : List ℕ)
      → min ≤ s
      → s ≤ max
      → (min ≤ browse previous next min max s keys) × (browse previous next min max s keys ≤ max)
  browse_bounds s [] lo hi = (lo, hi)
  browse_bounds s (key ∷ keys) lo hi =
      let b = moved_bounds s key lo hi in
      browse_bounds (moved previous next min max s key) keys b.0 b.1

  -- The loop up to the key that ends it.
  loop-enter :
      (s input : ℕ) (typed rest : List ℕ)
      → min ≤ s
      → s ≤ max
      → input ≢ esc
      → IsBrowsing typed
      → menu_loop previous next min max s input (typed ++ enter ∷ rest)
        ≡ some (some (browse previous next min max s (input ∷ typed)), rest)
  unfolding menu_loop
  loop-enter s input [] rest lo hi other b = rw (menu_loop, step-browsing s input lo hi other)
  loop-enter s input (key ∷ typed) rest lo hi other (ne, out, b) =
      let m = moved_bounds s input lo hi in
      rw (menu_loop, step-browsing s input lo hi other, ≢→== key enter ne)
        (loop-enter (moved previous next min max s input) key typed rest m.0 m.1 out b)

  esc_step : (s : ℕ) → previous ≢ esc → next ≢ esc → menu_step previous next min max s esc ≡ none
  unfolding menu_step
  esc_step s p n = ground arith

  esc_now :
      (s : ℕ) (rest : List ℕ)
      → menu_step previous next min max s esc ≡ none
      → menu_loop previous next min max s esc rest ≡ some (none, rest)
  unfolding menu_loop
  esc_now s [] e = rw (menu_loop, e)
  esc_now s (key ∷ keys) e = rw (menu_loop, e)

  loop-esc :
      (s input : ℕ) (typed rest : List ℕ)
      → min ≤ s
      → s ≤ max
      → input ≢ esc
      → previous ≢ esc
      → next ≢ esc
      → IsBrowsing typed
      → menu_loop previous next min max s input (typed ++ esc ∷ rest) ≡ some (none, rest)
  unfolding menu_loop
  loop-esc s input [] rest lo hi other p n b =
      rw (menu_loop, step-browsing s input lo hi other)
        (esc_now (moved previous next min max s input) rest (esc_step _ p n))
  loop-esc s input (key ∷ typed) rest lo hi other p n (ne, out, b) =
      let m = moved_bounds s input lo hi in
      rw (menu_loop, step-browsing s input lo hi other, ≢→== key enter ne)
        (loop-esc (moved previous next min max s input) key typed rest m.0 m.1 out p n b)

-- `menu_manager` for keys that neither confirm nor leave, then Enter: it returns the selection that
-- the keys lead to from the first one, which is never outside the bounds, and leaves the later keys.
-- With ESC in place of Enter it returns -1 (`none`). Neither arrow is ESC, and `next` is not the 0
-- that the loop starts with.
menu_manager_lem :
    (previous next min max : ℕ) (typed rest : List ℕ)
    → min ≤ max
    → next ≢ 0
    → previous ≢ esc
    → next ≢ esc
    → IsBrowsing typed
    → let choice = browse previous next min max min typed in
      (menu_manager previous next min max (typed ++ enter ∷ rest) ≡ some (some choice, rest))
      × (min ≤ choice)
      × (choice ≤ max)
      × (menu_manager previous next min max (typed ++ esc ∷ rest) ≡ some (none, rest))
unfolding menu_manager
menu_manager_lem previous next min max typed rest h n p q b =
    let first : moved previous next min max min 0 ≡ min = ground arith in
    let bounds = browse_bounds previous next min max min typed (omega arith) h in
    (
      loop-enter previous next min max min 0 typed rest (omega arith) h (omega arith) b
          ∙ ap (λ s. some (some (browse previous next min max s typed), rest)) first,
      bounds.0,
      bounds.1,
      loop-esc previous next min max min 0 typed rest (omega arith) h (omega arith) p q b,
    )
