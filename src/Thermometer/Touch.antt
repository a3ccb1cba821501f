-- ===== src/Thermometer/Touch.antt =====
-- What presses of the touch sensor do in Microprocessors_And_Peripherals/03. Final/main.c.
use university_collection.Prelude.{ℕ, zero, suc, ◌+◌, ◌/◌, ◌%◌, ◌≤◌, ◌≡◌, refl, subst}
use university_collection.Prelude.{false, ◌==◌, if◌then◌else◌, arith}
use university_collection.Thermometer.{Panel, fresh_panel, touch}

-- `n` presses from the start, with the same number in the buffer.
abbrev pub pressed : ℕ → ℕ → Panel
pressed number zero = fresh_panel
pressed number (suc n) = touch number (pressed number n)

-- The panel after `n` presses, two or more.
record Settled (n : ℕ) (s : Panel) : Type 0 where
  count : s.presses ≡ n
  rate : s.rate ≡ 3
  humidity : s.humidity ≡ (n % 2 == 1)

touch-Settled : (number n : ℕ) (s : Panel) → 2 ≤ n → Settled n s → Settled (n + 1) (touch number s)
unfolding touch
touch-Settled number n s h t = record {
  count = ground (arith, t.count);
  rate = ground (arith, t.count, t.rate);
  humidity = ground (arith, t.count, t.humidity);
}

pressed-Settled : (number n : ℕ) → Settled (n + 2) (pressed number (suc (suc n)))
pressed-Settled number zero = unfold touch in record { count = refl; rate = refl; humidity = refl }
pressed-Settled number (suc n) =
    subst (λ k. Settled k (pressed number (suc (suc (suc n)))))
      (let e : n + 2 + 1 ≡ suc n + 2 = omega arith in e)
      (touch-Settled number (n + 2) (pressed number (suc (suc n))) (omega arith)
        (pressed-Settled number n))

-- The first press sets the rate to the sum of the last two digits of the number, or to 4 where that
-- is 2, and shows no humidity. After two presses or more the rate is 3, and the humidity is shown
-- after an odd number of presses.
pressed_lem :
    (number n : ℕ)
    → ((pressed number 1).rate
        ≡ (if number % 100 / 10 + number % 10 == 2 then 4 else number % 100 / 10 + number % 10))
      × ((pressed number 1).humidity ≡ false)
      × ((pressed number (suc (suc n))).rate ≡ 3)
      × ((pressed number (suc (suc n))).humidity ≡ ((n + 2) % 2 == 1))
unfolding touch
pressed_lem number n = let s = pressed-Settled number n in (ground arith, refl, s.rate, s.humidity)
