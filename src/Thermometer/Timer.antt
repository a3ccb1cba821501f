-- ===== src/Thermometer/Timer.antt =====
-- The driver of the timer, Microprocessors_And_Peripherals/03. Final/tim.c, and what the touch sensor of
-- main.c does with it. The registers are the state; `uint32_t` wraps. Time is in counts of TIM2: the
-- counter itself is hardware, and its prescaler, which takes a new value at an update event only, divides
-- the clock outside the model.
use university_collection.Prelude.{
  ℕ, zero, suc, ◌+◌, ◌-◌, ◌*◌, ◌/◌, ◌%◌, ◌≤◌, ◌<◌, ◌≡◌, Bool, true, false, ltb, ◌==◌, if◌then◌else◌,
}
use university_collection.Thermometer.{Panel, touch}

-- 2 ^ 32.
abbrev pub word : ℕ
word = 4294967296

-- `PSC`, `ARR` and `CNT`, and the bits that the driver uses: the clock of TIM2, `UIE` with its interrupt in the
-- NVIC, `CEN`, and `UIF`.
pub record Tim2 : Type 0 where
  pub psc : ℕ
  pub arr : ℕ
  pub cnt : ℕ
  pub clocked : Bool
  pub update_interrupt : Bool
  pub counting : Bool
  pub update_flag : Bool

-- `n - 1`
abbrev one_less : ℕ → ℕ
one_less n = (n + (word - 1)) % word

unfoldable pub timer_initialize : (system_core_clock duration : ℕ) → Tim2 → Tim2
timer_initialize system_core_clock duration t = record t {
  clocked = true;
  psc = one_less (system_core_clock / 1000);
  arr = one_less duration;
  update_interrupt = true;
}

unfoldable pub timer_enable : Tim2 → Tim2
timer_enable t = record t { counting = true }

unfoldable timer_disable : Tim2 → Tim2
timer_disable t = record t { counting = false }

unfoldable pub timer_change : (duration : ℕ) → Tim2 → Tim2
timer_change duration t = record t { arr = one_less duration }

-- `TIM2_IRQHandler`, where `callback` acts on the rest of the program's state.
unfoldable pub tim2_irq_handler {ℓ} : {A : Type ℓ} → (callback : A → A) → Tim2 → A → Tim2 × A
tim2_irq_handler callback t a =
    if t.update_flag then (record t { update_flag = false }, callback a) else (t, a)

-- `TouchSensorISR` with its last line.
unfoldable pub touch_sensor_isr : (number : ℕ) → Panel → Tim2 → Panel × Tim2
touch_sensor_isr number s t =
    let pressed = touch number s in (pressed, timer_change (pressed.rate * 1000) t)

-- What the reference manual says of one count of an enabled TIM2 whose `ARR` is not 0 and not buffered
-- (`ARPE` is 0 after a reset): at `ARR` the counter starts again from 0 with an update event, elsewhere it
-- goes up by one, in 32 bits.
pub record IsCounter (count : Tim2 → Tim2) : Type 0 where
  pub reload :
      (t : Tim2)
      → t.counting ≡ true
      → 1 ≤ t.arr
      → t.cnt ≡ t.arr
      → count t ≡ record t { cnt = 0; update_flag = true }
  pub upward :
      (t : Tim2)
      → t.counting ≡ true
      → 1 ≤ t.arr
      → ¬ (t.cnt ≡ t.arr)
      → count t ≡ record t { cnt = (t.cnt + 1) % word }

abbrev pub counts : (count : Tim2 → Tim2) → ℕ → Tim2 → Tim2
counts count zero t = t
counts count (suc k) t = count (counts count k t)

-- The next update event comes with the `n`-th count and not before.
pub record UpdatesAfter (count : Tim2 → Tim2) (n : ℕ) (t : Tim2) : Type 0 where
  pub before : (k : ℕ) → k < n → (counts count k t).update_flag ≡ false
  pub at : counts count n t ≡ record t { cnt = 0; update_flag = true }

-- Counts to the next update from `cnt`, for a period of `target` counts.
abbrev pub first_update : (target cnt : ℕ) → ℕ
first_update target cnt = if ltb cnt target then target - cnt else word - cnt + target

-- The period, in counts, that a sensor rate asks for.
abbrev pub rate_counts : (rate : ℕ) → ℕ
rate_counts rate = if rate == 0 then word else rate * 1000
