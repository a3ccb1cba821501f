-- ===== src/Sailing/Wind.antt =====
-- The wind of Structured_Programming/main.c: `windchange`, once a round, and `windcheck`, once for
-- each ship and phase. `rand` and `RAND_MAX` are the C library's: a parameter with its documented
-- range.
pub mod Change
pub mod Check
use university_collection.Prelude.{
  ℕ, zero, suc, ◌+◌, ◌-◌, ◌*◌, ◌/◌, ◌≤◌, Bool, true, false, ◌&&◌, ltb, leb,
}
use university_collection.Prelude.{◌==◌, if◌then◌else◌, Option, none, some}
use university_collection.Sailing.State.{Game}

-- The C library's generator: the results of `rand` in the order of the calls.
pub record Rng : Type 0 where
  pub rand_max : ℕ
  pub value : ℕ → ℕ
  pub value_le : (k : ℕ) → value k ≤ rand_max

-- `rand() / (RAND_MAX / n + 1)` at the call of `rand` with the number `drawn`.
unfoldable pub scaled : Rng → ℕ → ℕ → ℕ
scaled rng drawn n = rng.value drawn / (rng.rand_max / n + 1)

-- The state after one call of `rand`.
abbrev drew : Game → Game
drew g = record g { drawn = g.drawn + 1 }

-- The turn of the wind by a quarter at most.
unfoldable pub turn : ℕ → ℕ → ℕ
turn random dir =
    if ltb 20 random && ltb random 60 then dir + 1 else if leb 60 random then dir - 1 else dir

-- The cases of `difficulty`; `random` is the first draw of `windchange`.
unfoldable pub windchange_level : Rng → Game → ℕ → ℕ → Game
unfolding turn
windchange_level rng g random zero = record (drew g) {
  wind_spd = scaled rng g.drawn 10;
  wind_dir = turn random g.wind_dir;
}
windchange_level rng g random (suc zero) = record (drew g) {
  wind_spd = scaled rng g.drawn 15;
  wind_dir = turn random g.wind_dir;
}
windchange_level rng g random (suc (suc zero)) =
    let g1 = record (drew g) { wind_dir = scaled rng g.drawn 4 } in
    let g2 = drew g1 in
    record (drew g2) {
      wind_spd =
          if ltb (scaled rng g1.drawn 100) 5
          then scaled rng g2.drawn 5 + 15
          else scaled rng g2.drawn 15;
    }
windchange_level rng g random (suc (suc (suc n))) = g

-- 1 up, 2 right, 3 down, 4 left: past the last comes the first.
unfoldable pub wrap_dir : ℕ → ℕ
wrap_dir dir = let one = if dir == 0 then 4 else dir in if one == 5 then 1 else one

unfoldable pub windchange : Rng → Game → ℕ → Game
unfolding windchange_level wrap_dir
windchange rng g difficulty =
    let h = windchange_level rng (drew g) (scaled rng g.drawn 100) difficulty in
    record h {
      wind_dir = wrap_dir h.wind_dir;
      wind_spd = if h.cur_round == 0 then 0 else h.wind_spd;
    }

-- The comparison of `ships[i]` with a kind of ship; `none` is -1.
abbrev pub is_kind : ℕ → Option ℕ → Bool
is_kind k none = false
is_kind k (some s) = s == k

-- The `int` that `wind_spd*2.5` and `wind_spd*5` are stored in, and the ten points off it.
unfoldable pub chances : Bool → ℕ → ℕ
chances resistant spd =
    let full = if resistant && leb spd 15 then spd * 5 / 2 else spd * 5 in
    if leb 10 full then full - 10 else full

-- Beside the new state: whether the wind takes the ship of `player`.
unfoldable pub windcheck : Rng → Game → ℕ → Game × Bool
unfolding chances
windcheck rng g player =
    let random = scaled rng g.drawn 100 in
    let resistant = is_kind 0 (g.ships (player - 1)) in
    let calm = resistant && leb g.wind_spd 5 in
    (
      drew g,
      if calm then false else if leb (chances resistant g.wind_spd) random then false else true,
    )
