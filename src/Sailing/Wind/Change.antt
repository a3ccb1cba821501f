-- ===== src/Sailing/Wind/Change.antt =====
-- `windchange` of Structured_Programming/main.c keeps the wind within the bounds of the difficulty.
use university_collection.Prelude.{ℕ, zero, suc, ◌+◌, ◌-◌, ◌/◌, ◌≤◌, ◌<◌, ◌≡◌, ◌⊎◌, arith}
use native.Mathlib.Nat.{div-add-mod, div-lt_iff_lt-mul, mod-lt}
use university_collection.Sailing.State.{Game}
use university_collection.Sailing.Wind.{Rng, scaled, wrap_dir, windchange}

div_scaled-lt : (r m n : ℕ) → r ≤ m → 1 ≤ n → r / (m / n + 1) < n
div_scaled-lt r m n h pos =
    (div-lt_iff_lt-mul {k = m / n + 1} {x = r} {y = n} (omega arith)).1
      (omega (arith, div-add-mod m n, mod-lt m {m = n} (omega arith)))

-- A draw that is scaled to `n` values is below `n`, for every `RAND_MAX`.
scaled-lt : (rng : Rng) (k n : ℕ) → 1 ≤ n → scaled rng k n < n
unfolding scaled
scaled-lt rng k n h = div_scaled-lt (rng.value k) rng.rand_max n (rng.value_le k) h

-- The wind blows in one of the four directions.
abbrev pub IsDirection : ℕ → Type 0
IsDirection d = (1 ≤ d) × (d ≤ 4)

-- The speeds that the menu of difficulties announces.
abbrev pub max_speed : ℕ → ℕ
max_speed zero = 10
max_speed (suc zero) = 15
max_speed (suc (suc n)) = 20

-- After `windchange` the wind has a direction and is weaker than the bound of the difficulty; in
-- the first round there is no wind. On the two lower levels it has turned by a quarter at most.
pub windchange_bounds :
    (rng : Rng) (g : Game) (difficulty : ℕ)
    → IsDirection g.wind_dir
    → difficulty ≤ 2
    → IsDirection (windchange rng g difficulty).wind_dir
      × ((windchange rng g difficulty).wind_spd < max_speed difficulty)
      × (g.cur_round ≡ 0 → (windchange rng g difficulty).wind_spd ≡ 0)
      × (difficulty ≤ 1
          → ((windchange rng g difficulty).wind_dir ≡ g.wind_dir)
            ⊎ ((windchange rng g difficulty).wind_dir ≡ wrap_dir (g.wind_dir + 1))
            ⊎ ((windchange rng g difficulty).wind_dir ≡ wrap_dir (g.wind_dir - 1)))
unfolding windchange
windchange_bounds rng g zero d h =
    let s = scaled-lt rng (g.drawn + 1) 10 (omega arith) in
    (ground arith, ground arith, λ e. ground arith, λ _. ground arith)
windchange_bounds rng g (suc zero) d h =
    let s = scaled-lt rng (g.drawn + 1) 15 (omega arith) in
    (ground arith, ground arith, λ e. ground arith, λ _. ground arith)
windchange_bounds rng g (suc (suc zero)) d h =
    let a = scaled-lt rng (g.drawn + 1) 4 (omega arith) in
    let b = scaled-lt rng (g.drawn + 1 + 1 + 1) 5 (omega arith) in
    let c = scaled-lt rng (g.drawn + 1 + 1 + 1) 15 (omega arith) in
    (ground arith, ground arith, λ e. ground arith, λ l. absurd (omega arith))
windchange_bounds rng g (suc (suc (suc n))) d h = absurd (omega arith)
