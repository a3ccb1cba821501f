-- ===== src/Thermometer/Tests.antt =====
-- The theorems about the thermometer at concrete inputs.
use university_collection.Prelude.{ℕ, ◌+◌, ◌≡◌, refl, arith}
use university_collection.Prelude.{none, List, [], ◌∷◌}
use university_collection.Thermometer.Timer.{
  Tim2, touch_sensor_isr, timer_initialize, timer_enable, word, first_update, rate_counts,
}
use university_collection.Thermometer.{Panel, fresh_panel, touch, ask_aem}
use university_collection.Thermometer.Input.{ask_aem_forever}
use university_collection.Prelude.{
  Bool, true, false, ◌==◌, if◌then◌else◌, ◌-◌, ◌*◌, ◌/◌, ◌%◌, ◌^◌, ◌<◌,
}
use university_collection.Thermometer.Sensor.{
  dht11_start, read_dht11, bit, measured, read_dht11-Sends,
}

abbrev zeros : ℕ → ℕ
zeros i = 0

-- Six digits.
abbrev digits : List ℕ
digits = 49 ∷ 50 ∷ 51 ∷ 52 ∷ 53 ∷ 54 ∷ []

ask_aem_forever_example : ask_aem 3 zeros digits ≡ none
ask_aem_forever_example = ask_aem_forever 3 zeros digits refl

-- The bytes of a measurement of 22.5 degrees and 40 percent, with their sum, and the pin that sends them.
abbrev bytes : ℕ → ℕ
bytes j =
    if j == 0 then 40 else if j == 1 then 0 else if j == 2 then 22 else if j == 3 then 5 else 67

abbrev pin : ℕ → Bool
pin k =
    if k == 1
    then false
    else if k == 2
    then true
    else bit (bytes ((k - 3) / 8)) (2 ^ (7 - (k - 3) % 8))

bytes_small : (j : ℕ) → bytes j < 256
bytes_small j = ground arith

read_dht11-Sends_example : read_dht11 pin zeros ≡ measured bytes
unfolding dht11_start
read_dht11-Sends_example =
    read_dht11-Sends pin zeros bytes refl (λ i. omega arith) bytes_small
      (refl, (refl, (refl, (refl, (refl, (refl, (refl, (refl, tt))))))))
      (refl, (refl, (refl, (refl, (refl, (refl, (refl, (refl, tt))))))))
      (refl, (refl, (refl, (refl, (refl, (refl, (refl, (refl, tt))))))))
      (refl, (refl, (refl, (refl, (refl, (refl, (refl, (refl, tt))))))))
      (refl, (refl, (refl, (refl, (refl, (refl, (refl, (refl, tt))))))))

-- A timer that has counted to 5000.
abbrev running_timer : Tim2
running_timer = record {
  psc = 0;
  arr = 5999;
  cnt = 5000;
  clocked = true;
  update_interrupt = true;
  counting = true;
  update_flag = false;
}

unfoldable count_up : Tim2 → Tim2
count_up t =
    if t.cnt == t.arr
    then record t { cnt = 0; update_flag = true }
    else record t { cnt = (t.cnt + 1) % word }

abbrev press : ℕ → Panel × Tim2
press number =
    touch_sensor_isr number fresh_panel
      (timer_enable (timer_initialize (84000 * 1000) 2000 running_timer))

-- The press that sets the rate to 3 seconds finds the counter at 5000.
late_press : first_update (rate_counts (press 12).0.rate) 5000 ≡ 4294965296
unfolding touch_sensor_isr touch
late_press = refl
