-- ===== src/Thermometer/Messages.antt =====
-- The messages of Microprocessors_And_Peripherals/03. Final/main.c, from the timer to the main loop.
use university_collection.Prelude.{ℕ, ◌+◌, ◌-◌, ◌*◌, ◌<◌, ◌≡◌, refl, inl, inr}
use university_collection.Prelude.{
  Bool, true, false, ltb, if◌then◌else◌, Bool-cases, List, [], ◌∷◌, arith,
}
use university_collection.Thermometer.{Panel, measure, Report, temperature_of, humidity_of, rate_of}
use university_collection.Thermometer.{Led, on, off, blinking, check_message, check_messages}

-- The LED for a temperature in tenths.
abbrev led_for : ℕ → Led
led_for t = if ltb 250 t then on else if ltb t 200 then off else blinking

abbrev humidity_report : Bool → ℕ → List Report → List Report
humidity_report shown h rest = if shown then humidity_of h ∷ rest else rest

check-temperature :
    (led : Led) (t : ℕ) → t < 2550 → check_message led t ≡ (led_for t, temperature_of t)
unfolding check_message
check-temperature led t h = rw (let e : ltb t 2550 ≡ true = ground arith in e) refl

check-humidity :
    (led : Led) (h : ℕ) → h < 2550 → check_message led (h + 2550) ≡ (led, humidity_of h)
unfolding check_message
check-humidity led h k =
    let high : ltb (h + 2550) 2550 ≡ false = ground arith in
    let low : ltb (h + 2550) 5100 ≡ true = ground arith in
    let back : h + 2550 - 2550 ≡ h = omega arith in rw (high, low, back) refl

check-rate : (led : Led) (r : ℕ) → check_message led (r + 5100) ≡ (led, rate_of r)
unfolding check_message
check-rate led r =
    let high : ltb (r + 5100) 2550 ≡ false = ground arith in
    let higher : ltb (r + 5100) 5100 ≡ false = ground arith in
    let back : r + 5100 - 5100 ≡ r = omega arith in rw (high, higher, back) refl

-- What the timer puts into the queue is what the main loop prints, in order: the temperature, the
-- humidity where it is shown, and the rate. The LED is on above 25 degrees, off below 20, and blinks
-- otherwise. Temperature and humidity are below 255, so that their messages keep apart.
check_messages-measure :
    (led : Led) (s : Panel) (t h : ℕ)
    → t < 2550
    → h < 2550
    → check_messages led (measure s t h)
      ≡ (led_for t, temperature_of t ∷ humidity_report s.humidity h (rate_of (s.rate * 10) ∷ []))
unfolding check_messages measure
check_messages-measure led s t h ht hh = elim (Bool-cases s.humidity) [
  | inl shown ↦
      rw
        (
          shown,
          check-temperature led t ht,
          check-humidity (led_for t) h hh,
          check-rate (led_for t) (s.rate * 10),
        )
        refl
  | inr hidden ↦ rw (hidden, check-temperature led t ht, check-rate (led_for t) (s.rate * 10)) refl
]
