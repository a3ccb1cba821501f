-- ===== src/Recorder/Clock.antt =====
-- RealTime_Embedded_Systems/src/timestamps.hpp: milliseconds since 1970, not negative.
use university_collection.Prelude.{ℕ, ◌+◌, ◌-◌, ◌*◌, ◌/◌, ◌%◌, ◌≤◌, ◌<◌, ◌≡◌}
use university_collection.Prelude.{◌==◌, if◌then◌else◌, arith}

-- `MS_IN_MIN`
abbrev pub ms_in_min : ℕ
ms_in_min = 60000

-- `US_IN_MS`
abbrev pub us_in_ms : ℕ
us_in_ms = 1000

unfoldable pub minute_floor_ms : ℕ → ℕ
minute_floor_ms timestamp_ms = let remainder = timestamp_ms % ms_in_min in timestamp_ms - remainder

unfoldable pub minute_ceil_ms : ℕ → ℕ
minute_ceil_ms timestamp_ms =
    let remainder = timestamp_ms % ms_in_min in
    if remainder == 0 then timestamp_ms else timestamp_ms + (ms_in_min - remainder)

unfoldable ms_to_us : ℕ → ℕ
ms_to_us timestamp_ms = timestamp_ms * us_in_ms

unfoldable us_to_ms : ℕ → ℕ
us_to_ms timestamp_us = timestamp_us / us_in_ms

-- The floor is the last exact minute up to the time, and the ceiling the first one from it on: they
-- are multiples of a minute, less than a minute away, and the same at an exact minute.
pub minute_floor_ms-minute_ceil_ms :
    (t : ℕ)
    → (minute_floor_ms t % ms_in_min ≡ 0)
      × (minute_floor_ms t ≤ t)
      × (t < minute_floor_ms t + ms_in_min)
      × (minute_ceil_ms t % ms_in_min ≡ 0)
      × (t ≤ minute_ceil_ms t)
      × (minute_ceil_ms t < t + ms_in_min)
      × (t % ms_in_min ≡ 0 → minute_floor_ms t ≡ minute_ceil_ms t)
unfolding minute_floor_ms minute_ceil_ms
minute_floor_ms-minute_ceil_ms t = (
  omega arith,
  omega arith,
  omega arith,
  ground arith,
  ground arith,
  ground arith,
  λ h. ground (arith, h),
)

minute_floor_ms_mono : (s t : ℕ) → s ≤ t → minute_floor_ms s ≤ minute_floor_ms t
unfolding minute_floor_ms
minute_floor_ms_mono s t h = omega (arith, h)

us_to_ms-ms_to_us : (t : ℕ) → us_to_ms (ms_to_us t) ≡ t
unfolding us_to_ms ms_to_us
us_to_ms-ms_to_us t = omega arith
