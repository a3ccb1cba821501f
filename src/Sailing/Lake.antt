-- ===== src/Sailing/Lake.antt =====
-- The lake of Structured_Programming/main.c: the global `lake[25][64]`, its cell codes, the search
-- for a ship, and the loops that go over the whole array.
pub mod Find
pub mod Fleet
pub mod Locate
use university_collection.Prelude.{ℕ, zero, suc, ◌+◌, ◌*◌, ◌%◌, ◌/◌, Bool, ◌&&◌, ltb, ◌==◌}
use university_collection.Prelude.{if◌then◌else◌, Option, none, some}

-- `int lake[25][64]`, by row and column. A place outside the array is a cell of its own, so that
-- a theorem can say that no such place is written.
abbrev pub Lake : Type 0
Lake = ℕ → ℕ → ℕ

abbrev pub rows : ℕ
rows = 25

abbrev pub columns : ℕ
columns = 64

abbrev pub in_grid : ℕ → ℕ → Bool
in_grid y x = ltb y rows && ltb x columns

-- The codes of a cell: the last three digits are a character, the others a colour.
abbrev pub sea : ℕ
sea = 3177

abbrev pub land : ℕ
land = 14219

abbrev pub wreckage : ℕ
wreckage = 4158

abbrev pub finish : ℕ
finish = 11177

-- `playercolors[5]`; no player has a number above 4.
unfoldable player_color : ℕ → ℕ
player_color zero = 0
player_color (suc zero) = 2
player_color (suc (suc zero)) = 4
player_color (suc (suc (suc zero))) = 6
player_color (suc (suc (suc (suc zero)))) = 5
player_color (suc (suc (suc (suc (suc n))))) = 0

-- `playercolors[player]*1000+219`, the code of a cell of the player's ship.
unfoldable pub ship_code : ℕ → ℕ
unfolding player_color
ship_code p = player_color p * 1000 + 219

-- `PLAYER1` to `PLAYER4`
abbrev pub player1 : ℕ
player1 = 2219

abbrev pub player2 : ℕ
player2 = 4219

abbrev pub player3 : ℕ
player3 = 6219

abbrev pub player4 : ℕ
player4 = 5219

-- `playercolors[player]*1000+178`, a cell of the player's planned course.
unfoldable pub path_code : ℕ → ℕ
unfolding player_color
path_code p = player_color p * 1000 + 178

-- `lake[y][x] = v`
abbrev pub put : Lake → ℕ → ℕ → ℕ → Lake
put l y x v r c = if r == y && c == x then v else l r c

-- The two cells of a ship whose left cell is `(y, x)`.
abbrev pub put_pair : Lake → ℕ → ℕ → ℕ → Lake
put_pair l y x v = put (put l y x v) y (x + 1) v

-- The inner loop of `findship`, with `n` columns to go.
find_column : Lake → ℕ → ℕ → ℕ → ℕ → Option ℕ
find_column l code y zero x = none
find_column l code y (suc n) x =
    let rest = find_column l code y n (suc x) in if l y x == code then some (y * 100 + x) else rest

-- The `return` inside the inner loop, or the rounds that follow.
abbrev or_else : Option ℕ → ℕ → ℕ
or_else (some found) rest = found
or_else none rest = rest

find_row : Lake → ℕ → ℕ → ℕ → ℕ
unfolding find_column
find_row l code zero y = 0
find_row l code (suc n) y =
    let rest = find_row l code n (suc y) in or_else (find_column l code y columns 0) rest

-- `findship`: row * 100 + column of the first cell of the player's ship, or 0.
unfoldable pub findship : Lake → ℕ → ℕ
unfolding find_row ship_code
findship l p = find_row l (ship_code p) rows 0

-- `for i < 25, for x < 64: lake[i][x] = f i x lake[i][x]`
sweep_row : (ℕ → ℕ → ℕ → ℕ) → ℕ → ℕ → ℕ → Lake → Lake
sweep_row f y zero x l = l
sweep_row f y (suc n) x l = sweep_row f y n (suc x) (put l y x (f y x (l y x)))

sweep_rows : (ℕ → ℕ → ℕ → ℕ) → ℕ → ℕ → ℕ → Lake → Lake
unfolding sweep_row
sweep_rows f w zero y l = l
sweep_rows f w (suc n) y l = sweep_rows f w n (suc y) (sweep_row f y w 0 l)

pub sweep : (ℕ → ℕ → ℕ → ℕ) → Lake → Lake
unfolding sweep_rows
sweep f l = sweep_rows f columns rows 0 l
