-- ===== src/Sailing/State.antt =====
-- The global variables of Structured_Programming/main.c as one record, and access to its arrays.
use university_collection.Prelude.{ℕ, Bool, Option, ◌==◌, if◌then◌else◌}
use university_collection.Prelude.Int.{ℤ, pos, negsuc}
use university_collection.Sailing.Lake.{Lake}

-- An array is a function of the index, which counts from 0; an index past its end is a place of
-- its own. `ships` is `none` for the -1 that `menu_manager` returns. `screen` is what the console
-- shows in the lake's frame, `stray` what a read of `lake` at a negative index gives, and `drawn`
-- counts the calls of `rand`.
pub record Game : Type 0 where
  pub lake : Lake
  pub prevlake : Lake
  pub screen : Lake
  pub stray : ℤ → ℤ → ℕ
  pub ships : ℕ → Option ℕ
  pub names : ℕ → ℕ → ℕ
  pub player_turn : ℕ
  pub cur_round : ℕ
  pub wind_dir : ℕ
  pub wind_spd : ℕ
  pub playermovements : ℕ → ℕ → ℕ
  pub alive : ℕ → Bool
  pub donemoving : ℕ → Bool
  pub lives : ℕ → ℤ
  pub savedpos : ℕ → ℕ × ℕ
  pub wreckship : ℕ → ℕ × ℕ
  pub wreckcounter : ℕ → ℕ
  pub winners : ℕ → Bool
  pub drawn : ℕ

-- `a[i] = v`
abbrev pub update {ℓ} : {A : Type ℓ} → (ℕ → A) → ℕ → A → ℕ → A
update a i v j = if j == i then v else a j

-- `a[i][j] = v`
abbrev pub update_row {ℓ} : {A : Type ℓ} → (ℕ → ℕ → A) → ℕ → ℕ → A → ℕ → ℕ → A
update_row a i j v = update a i (update (a i) j v)

-- The value of `lake[y][x]` at signed indices.
unfoldable pub cell : Game → ℤ → ℤ → ℕ
cell g (pos y) (pos x) = g.lake y x
cell g (pos y) (negsuc x) = g.stray (pos y) (negsuc x)
cell g (negsuc y) x = g.stray (negsuc y) x
