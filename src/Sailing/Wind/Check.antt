-- ===== src/Sailing/Wind/Check.antt =====
-- `windcheck` of Structured_Programming/main.c: how likely the wind takes a ship.
use university_collection.Prelude.{ℕ, ◌+◌, ◌-◌, ◌*◌, ◌/◌, ◌≤◌, ◌<◌, ◌≡◌, ◌↔◌, arith}
use university_collection.Prelude.{true, false, some}
use university_collection.Sailing.State.{Game, update}
use university_collection.Sailing.Wind.{Rng, scaled, windcheck}

-- Below the bound on its speed the wind is never sure to take a ship: with a draw of 90 or more, no
-- ship is taken.
windcheck_never_sure :
    (rng : Rng) (g : Game) (player : ℕ)
    → g.wind_spd ≤ 20
    → 90 ≤ scaled rng g.drawn 100
    → (windcheck rng g player).1 ≡ false
unfolding windcheck
windcheck_never_sure rng g player slow draw = ground arith

-- At the same draw, a ship that resists the wind is taken only if every ship would be.
windcheck_resists :
    (rng : Rng) (g : Game) (player kind : ℕ)
    → g.ships (player - 1) ≡ some 0
    → (windcheck rng g player).1 ≡ true
    → (windcheck rng (record g { ships = update g.ships (player - 1) (some kind) }) player).1 ≡ true
unfolding windcheck
windcheck_resists rng g player kind resists taken = ground arith

-- A ship that resists is safe from winds of 5 or less. From 6 to 15 its chances are half of those of
-- another ship, rounded down, before the ten points are taken off; above 15 they are the same.
windcheck_resistant :
    (rng : Rng) (g : Game) (player : ℕ)
    → g.ships (player - 1) ≡ some 0
    → (g.wind_spd ≤ 5 → (windcheck rng g player).1 ≡ false)
      × (6 ≤ g.wind_spd
          → g.wind_spd ≤ 15
          → ((windcheck rng g player).1 ≡ true)
            ↔ (scaled rng g.drawn 100 + 10 < g.wind_spd * 5 / 2))
      × (16 ≤ g.wind_spd
          → ((windcheck rng g player).1 ≡ true) ↔ (scaled rng g.drawn 100 + 10 < g.wind_spd * 5))
unfolding windcheck
windcheck_resistant rng g player resists =
    (λ a. ground arith, λ a b. (ground arith, ground arith), λ a. (ground arith, ground arith))
