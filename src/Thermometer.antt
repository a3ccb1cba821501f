-- ===== src/Thermometer.antt =====
-- The thermometer of Microprocessors_And_Peripherals/03. Final/main.c: the input of the user's number
-- (AEM), the touch sensor, and the messages between the timer and the main loop. The drivers are not
-- modelled: received characters are a list, and a measurement is a parameter.
pub mod Input
pub mod Touch
pub mod Messages
pub mod Sensor
pub mod Timer
mod Tests
use university_collection.Prelude.{
  ℕ, zero, suc, ◌+◌, ◌-◌, ◌*◌, ◌/◌, ◌%◌, Bool, true, false, not, ◌&&◌, leb, ltb,
}
use university_collection.Prelude.{◌==◌, if◌then◌else◌, Option, none, some, List, [], ◌∷◌, ◌++◌}

abbrev pub buff_size : ℕ
buff_size = 6

-- `buff`, by index, and `buff_index`.
pub record Line : Type 0 where
  pub buff : ℕ → ℕ
  pub index : ℕ

-- A round of the loop of `get_uart_input`, for the character `c`: 8 is Backspace.
unfoldable pub receive : Line → ℕ → Line
receive s c =
    if c == 8
    then (if ltb 0 s.index then record s { index = s.index - 1 } else s)
    else record { buff = λ i. if i == s.index then c else s.buff i; index = s.index + 1 }

-- The loop up to Return (13) or a full buffer; `none` while it waits for a character. Beside the
-- line: the characters that are left.
unfoldable pub uart_loop : Line → List ℕ → Option (Line × List ℕ)
uart_loop s [] = none
uart_loop s (c ∷ cs) =
    let t = receive s c in
    let again = uart_loop t cs in
    if not (c == 13) && ltb t.index (buff_size - 1) then again else some (t, cs)

unfoldable pub get_uart_input : (ℕ → ℕ) → List ℕ → Option (Line × List ℕ)
get_uart_input buff cs = uart_loop (record { buff = buff; index = 0 }) cs

-- The test for the message about an overflow.
unfoldable pub overflowed : Line → Bool
overflowed s = ltb buff_size s.index

abbrev is_digit : ℕ → Bool
is_digit c = leb 48 c && leb c 57

-- `isValidAEM`, from index `i` on.
unfoldable pub all_digits : (n i : ℕ) → (ℕ → ℕ) → Bool
all_digits zero i buff = true
all_digits (suc n) i buff =
    let rest = all_digits n (suc i) buff in if not (is_digit (buff i)) then false else rest

unfoldable pub is_valid_aem : (ℕ → ℕ) → Bool
unfolding all_digits
is_valid_aem buff = all_digits buff_size 0 buff

abbrev pub answered {ℓ} :
    {A : Type ℓ} → Option (Line × List ℕ) → (Line → List ℕ → Option A) → Option A
answered none next = none
answered (some (s, cs)) next = next s cs

-- The loop of `main` that asks for a valid AEM, for at most `n` answers.
unfoldable pub ask_aem : ℕ → (ℕ → ℕ) → List ℕ → Option (Line × List ℕ)
ask_aem zero buff cs = none
ask_aem (suc n) buff cs =
    answered (get_uart_input buff cs)
      (λ s rest. if is_valid_aem s.buff then some (s, rest) else ask_aem n s.buff rest)

-- `switchPresses`, `showHumidity` and `sensorRate`.
pub record Panel : Type 0 where
  pub presses : ℕ
  pub humidity : Bool
  pub rate : ℕ

-- The initial values.
abbrev pub fresh_panel : Panel
fresh_panel = record { presses = 0; humidity = false; rate = 2 }

-- `TouchSensorISR`, where `number` is `atoi(buff)`. Its last line is in Thermometer/Timer.
unfoldable pub touch : ℕ → Panel → Panel
touch number s =
    let sum = number % 100 / 10 + number % 100 % 10 in
    let t =
      if s.presses == 0
      then record s { rate = (if not (sum == 2) then sum else 4) % 256 }
      else if not (s.presses % 2 == 0)
      then record s { rate = 3; humidity = false }
      else record s { humidity = true } in
    record t { presses = t.presses + 1 }

-- What `temperature_timer_isr` puts into the message queue, in tenths: `temperature` and `humid` are
-- the measurement of `ReadDHT11`.
unfoldable pub measure : Panel → (temperature humid : ℕ) → List ℕ
measure s temperature humid =
    temperature
    ∷ (if s.humidity then (humid + 2550) ∷ (s.rate * 10 + 5100) ∷ [] else (s.rate * 10 + 5100) ∷ [])

-- What `checkMessg` prints.
pub data Report : Type 0 where
  temperature_of : ℕ → Report
  humidity_of : ℕ → Report
  rate_of : ℕ → Report

-- The LED: the last command, on, off or blinking.
pub data Led : Type 0 where
  on : Led
  off : Led
  blinking : Led

-- `checkMessg` for a message in tenths, with the LED after it.
unfoldable pub check_message : Led → ℕ → Led × Report
check_message led msg =
    if ltb msg 2550
    then ((if ltb 250 msg then on else if ltb msg 200 then off else blinking), temperature_of msg)
    else if ltb msg 5100
    then (led, humidity_of (msg - 2550))
    else (led, rate_of (msg - 5100))

-- The main loop until the queue is empty: the LED after it, and what was printed.
unfoldable pub check_messages : Led → List ℕ → Led × List Report
check_messages led [] = (led, [])
check_messages led (msg ∷ rest) =
    let r = check_message led msg in let later = check_messages r.0 rest in (later.0, r.1 ∷ later.1)
