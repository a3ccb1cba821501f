-- ===== src/Sailing/Lake/Find.antt =====
-- What `findship` returns, and what a sweep over the lake does to each cell.
use university_collection.Prelude.{ℕ, zero, suc, ◌+◌, ◌*◌, ◌%◌, ◌/◌, ◌≤◌, ◌<◌, ◌≡◌, refl, ◌≢◌}
use university_collection.Prelude.{◌⊎◌, inl, inr, ◌&&◌, ltb, leb, ◌==◌, Bool-cases}
use university_collection.Prelude.{if◌then◌else◌, ==→≡, ==→≢, ≢→==, none, some, arith}
use university_collection.Sailing.Lake.{Lake, rows, columns, in_grid, put, ship_code, find_column}
use university_collection.Sailing.Lake.{find_row, findship, sweep_row, sweep_rows, sweep}

-- The player's ship covers exactly the cells `(y, x)` and `(y, x + 1)`, inside the lake.
pub record Ship (l : Lake) (p y x : ℕ) : Type 0 where
  pub row : y < rows
  pub column : x + 1 < columns
  pub left : l y x ≡ ship_code p
  pub right : l y (x + 1) ≡ ship_code p
  pub only :
      (r c : ℕ) → r < rows → c < columns → l r c ≡ ship_code p → (r ≡ y) × ((c ≡ x) ⊎ (c ≡ x + 1))

find_column-hit :
    (l : Lake) (code y n x c : ℕ)
    → x ≤ c
    → c < x + n
    → l y c ≡ code
    → ((b : ℕ) → x ≤ b → b < c → l y b ≢ code)
    → find_column l code y n x ≡ some (y * 100 + c)
unfolding find_column
find_column-hit l code y zero x c h k e first = absurd (omega arith)
find_column-hit l code y (suc n) x c h k e first = elim (Bool-cases (x == c)) [
  | inl same ↦ let s = ==→≡ x c same in ground arith
  | inr other ↦
      let ne = ==→≢ x c other in
      rw (≢→== (l y x) code (first x (omega arith) (omega arith))) (
        find_column-hit l code y n (suc x) c (omega arith) (omega arith) e
          (λ b hb. first b (omega arith)))
]

find_column-miss :
    (l : Lake) (code y n x : ℕ)
    → ((b : ℕ) → b < x + n → l y b ≢ code)
    → find_column l code y n x ≡ none
unfolding find_column
find_column-miss l code y zero x none_here = refl
find_column-miss l code y (suc n) x none_here =
    rw (≢→== (l y x) code (none_here x (omega arith)))
      (find_column-miss l code y n (suc x) (λ b hb. none_here b (omega arith)))

find_row-hit :
    (l : Lake) (code n y r c : ℕ)
    → y ≤ r
    → r < y + n
    → c < columns
    → l r c ≡ code
    → ((b : ℕ) → b < c → l r b ≢ code)
    → ((a b : ℕ) → a < r → b < columns → l a b ≢ code)
    → find_row l code n y ≡ r * 100 + c
unfolding find_row
find_row-hit l code zero y r c h k hc e first above = absurd (omega arith)
find_row-hit l code (suc n) y r c h k hc e first above = elim (Bool-cases (y == r)) [
  | inl same ↦ rw (
    ==→≡ y r same,
    find_row,
    find_column-hit l code r columns 0 c (omega arith) (omega arith) e (λ b _. first b),
  )
  | inr other ↦
      let ne = ==→≢ y r other in
      rw
        (
          find_row,
          find_column-miss l code y columns 0 (λ b hb. above y b (omega arith) (omega arith)),
        )
        (find_row-hit l code n (suc y) r c (omega arith) (omega arith) hc e first above)
]

find_row-miss :
    (l : Lake) (code n y : ℕ)
    → ((a b : ℕ) → a < y + n → b < columns → l a b ≢ code)
    → find_row l code n y ≡ 0
unfolding find_row
find_row-miss l code zero y none_here = refl
find_row-miss l code (suc n) y none_here =
    rw
      (
        find_row,
        find_column-miss l code y columns 0 (λ b hb. none_here y b (omega arith) (omega arith)),
      )
      (find_row-miss l code n (suc y) (λ a b ha. none_here a b (omega arith)))

-- A ship that lies on the lake is found: `findship` returns row * 100 + column of its left cell.
findship-Ship : {l : Lake} {p y x : ℕ} → Ship l p y x → findship l p ≡ y * 100 + x
unfolding findship
findship-Ship {l} {p} {y} {x} s =
    find_row-hit l (ship_code p) rows 0 y x (omega arith) s.row (omega (arith, s.column)) s.left
      (λ b hb e. omega (arith, s.only y b s.row (omega (arith, s.column)) e))
      (λ a b ha hb e. omega (arith, s.only a b (omega (arith, s.row)) hb e))

pub findship-missing :
    (l : Lake) (p : ℕ)
    → ((r c : ℕ) → r < rows → c < columns → l r c ≢ ship_code p)
    → findship l p ≡ 0
unfolding findship
findship-missing l p nowhere = find_row-miss l (ship_code p) rows 0 nowhere

-- The division and the remainder by 100, by which every caller takes the result apart.
pub row-findship : {l : Lake} {p y x : ℕ} → Ship l p y x → findship l p / 100 ≡ y
row-findship s = omega (arith, findship-Ship s, s.column)

pub column-findship : {l : Lake} {p y x : ℕ} → Ship l p y x → findship l p % 100 ≡ x
column-findship s = omega (arith, findship-Ship s, s.column)

-- The search depends only on which cells hold the code.
find_column-cong :
    (l m : Lake) (code y n x : ℕ)
    → ((r c : ℕ) → (l r c == code) ≡ (m r c == code))
    → find_column l code y n x ≡ find_column m code y n x
unfolding find_column
find_column-cong l m code y zero x same = refl
find_column-cong l m code y (suc n) x same =
    rw (same y x, find_column-cong l m code y n (suc x) same)

find_row-cong :
    (l m : Lake) (code n y : ℕ)
    → ((r c : ℕ) → (l r c == code) ≡ (m r c == code))
    → find_row l code n y ≡ find_row m code n y
unfolding find_row
find_row-cong l m code zero y same = refl
find_row-cong l m code (suc n) y same =
    rw (find_row, find_column-cong l m code y columns 0 same, find_row-cong l m code n (suc y) same)

pub findship-cong :
    (l m : Lake) (p : ℕ)
    → ((r c : ℕ) → (l r c == ship_code p) ≡ (m r c == ship_code p))
    → findship l p ≡ findship m p
unfolding findship
findship-cong l m p same = find_row-cong l m (ship_code p) rows 0 same

sweep_row_lem :
    (f : ℕ → ℕ → ℕ → ℕ) (y n x : ℕ) (l : Lake) (r c : ℕ)
    → sweep_row f y n x l r c
      ≡ (if r == y && (leb x c && ltb c (x + n)) then f r c (l r c) else l r c)
unfolding sweep_row
sweep_row_lem f y zero x l r c = ground arith
sweep_row_lem f y (suc n) x l r c =
    ground (arith, sweep_row_lem f y n (suc x) (put l y x (f y x (l y x))) r c)

sweep_rows_lem :
    (f : ℕ → ℕ → ℕ → ℕ) (w n y : ℕ) (l : Lake) (r c : ℕ)
    → sweep_rows f w n y l r c
      ≡ (if (leb y r && ltb r (y + n)) && ltb c w then f r c (l r c) else l r c)
unfolding sweep_rows
sweep_rows_lem f w zero y l r c = ground arith
sweep_rows_lem f w (suc n) y l r c =
    rw (sweep_rows_lem f w n (suc y) (sweep_row f y w 0 l) r c, sweep_row_lem f y w 0 l r c)
      (ground arith)

-- A sweep changes each cell of the lake by its own value, and nothing outside.
pub sweep_lem :
    (f : ℕ → ℕ → ℕ → ℕ) (l : Lake) (r c : ℕ)
    → sweep f l r c ≡ (if in_grid r c then f r c (l r c) else l r c)
unfolding sweep
sweep_lem f l r c = rw (sweep_rows_lem f columns rows 0 l r c) (ground arith)
