-- ===== src/Blinker.antt =====
-- The blinking LED of Microprocessors_And_Peripherals/02. GPIO, Interrupts, Timers/main.c: the
-- interrupt handlers, the two queues, the line editor and the main loop. The driver's
-- `queue_enqueue` is a parameter; what the program sends to the terminal is a list.
pub mod Laws
pub mod Editor
pub mod Log
pub mod History
mod Tests
use university_collection.Prelude.{
  ℕ, zero, suc, ◌+◌, ◌-◌, ◌*◌, ◌%◌, Bool, true, false, not, ◌&&◌, ◌||◌, leb, ltb,
}
use university_collection.Prelude.{◌==◌, if◌then◌else◌, Option, none, some, List, [], ◌∷◌, ◌++◌}

-- `BUFF_SIZE`
abbrev input_size : ℕ
input_size = 6

-- `QUEUE_SIZE`
abbrev pub queue_size : ℕ
queue_size = 20

-- What is sent to the terminal: a character that is echoed, or one of the texts.
pub data Sent : Type 0 where
  echo : ℕ → Sent
  new_line : Sent
  prompt : Sent
  refusal : Sent
  led_off : Sent
  led_on : Sent
  keypresses : ℕ → Sent
  garbage : Sent

-- The globals, `buff` and `buff_index` of `main`, the LED, the timer, and what was sent so far.
-- `buff` goes by index, past its end into the memory behind it.
pub record Board : Type 0 where
  pub buff : ℕ → ℕ
  pub buff_index : ℕ
  pub rx_queue : List ℕ
  pub msg_queue : List ℕ
  pub switch_presses : ℕ
  pub led : Bool
  pub timer : Bool
  pub sent : List Sent

-- `queue_enqueue` of the driver: the capacity, the value and the queue.
abbrev pub Enqueue : Type 0
Enqueue = ℕ → ℕ → List ℕ → List ℕ

-- `gpio_get(LEDPIN) >> LEDPIN`
abbrev pub led_bit : Bool → ℕ
led_bit lit = if lit then 1 else 0

unfoldable pub switch_pressed_isr : Enqueue → Board → Board
switch_pressed_isr enqueue b =
    let lit = not b.led in
    record b {
      timer = false;
      led = lit;
      msg_queue = enqueue queue_size 2 (enqueue queue_size (led_bit lit) b.msg_queue);
    }

unfoldable pub timer_callback_isr : Enqueue → Board → Board
timer_callback_isr enqueue b =
    let lit = not b.led in
    record b { led = lit; msg_queue = enqueue queue_size (led_bit lit) b.msg_queue }

unfoldable pub uart_rx_isr : Enqueue → ℕ → Board → Board
uart_rx_isr enqueue rx b =
    if leb 0 rx && leb rx 127 then record b { rx_queue = enqueue 128 rx b.rx_queue } else b

-- The `switch` of `checkMessg`, for the message that was taken.
unfoldable pub print_message : ℕ → Board → Board
print_message last_state b =
    let presses = if last_state == 2 then b.switch_presses + 1 else b.switch_presses in
    let text =
      if last_state == 0
      then led_off
      else if last_state == 1
      then led_on
      else if last_state == 2
      then keypresses presses
      else garbage in
    record b { switch_presses = presses; sent = b.sent ++ (text ∷ []) }

abbrev pub take_message : List ℕ → Board → Bool × Board
take_message [] b = (false, b)
take_message (msg ∷ rest) b = (true, print_message msg (record b { msg_queue = rest }))

unfoldable pub check_messg : Board → Bool × Board
check_messg b = take_message b.msg_queue b

abbrev pub isdigit : ℕ → Bool
isdigit c = leb 48 c && leb c 57

-- `isValidAEM`, from index `i` on.
unfoldable pub digits_from : (n i : ℕ) → (ℕ → ℕ) → Bool
digits_from zero i buff = true
digits_from (suc n) i buff =
    let rest = digits_from n (suc i) buff in if not (isdigit (buff i)) then false else rest

unfoldable pub is_aem : (ℕ → ℕ) → Bool
unfolding digits_from
is_aem buff = digits_from input_size 0 buff

-- `atoi` of the C library on digits, for at most `n` of them, from index `i` on.
unfoldable pub digits_value : (n i value : ℕ) → (ℕ → ℕ) → ℕ
digits_value zero i value buff = value
digits_value (suc n) i value buff =
    let rest = digits_value n (suc i) (value * 10 + (buff i - 48)) buff in
    if isdigit (buff i) then rest else value

-- An `int` has at most ten digits.
unfoldable pub atoi : (ℕ → ℕ) → ℕ
unfolding digits_value
atoi buff = digits_value 10 0 0 buff

-- `timer_enable` for an odd number, `timer_disable` for an even one.
unfoldable pub check_aem : Board → Board
check_aem b = record b {
  timer = if is_aem b.buff then (if not (atoi b.buff % 2 == 0) then true else false) else b.timer;
}

-- `memset(buff, '\0', BUFF_SIZE)`
abbrev pub cleared : (ℕ → ℕ) → ℕ → ℕ
cleared buff i = if ltb i input_size then 0 else buff i

abbrev send : Sent → Board → Board
send text b = record b { sent = b.sent ++ (text ∷ []) }

-- The branch of `checkUart` for Return.
unfoldable pub enter : Board → Board
enter b =
    let c = check_aem (send new_line b) in
    send prompt (record c { buff_index = 0; buff = cleared c.buff })

-- The body of `checkUart` for the character that was taken: 8 is Backspace, 13 is Return.
unfoldable pub edit : ℕ → Board → Board
edit rx_char b =
    if rx_char == 8
    then (if ltb 0 b.buff_index
        then send (echo rx_char) (record b { buff_index = b.buff_index - 1 })
        else b)
    else if rx_char == 13
    then enter b
    else if leb input_size b.buff_index
    then send refusal b
    else send (echo rx_char) (record b {
      buff = λ i. if i == b.buff_index then rx_char else b.buff i;
      buff_index = b.buff_index + 1;
    })

abbrev pub take_character : List ℕ → Board → Bool × Board
take_character [] b = (false, b)
take_character (c ∷ rest) b = (true, edit c (record b { rx_queue = rest }))

unfoldable pub check_uart : Board → Bool × Board
check_uart b = take_character b.rx_queue b

-- The right side of `||` in `main`.
abbrev pub or_messg : Bool × Board → Bool × Board
or_messg (true, b) = (true, b)
or_messg (false, b) = check_messg b

-- A round of the loop of `main`: whether it goes on at once, or waits for an interrupt.
unfoldable pub loop_round : Board → Bool × Board
loop_round b = or_messg (check_uart b)

-- The start of the loop: `memory` is what the stack holds, and the LED's state is the pin's.
unfoldable pub start_board : (ℕ → ℕ) → Bool → Board
start_board memory lit = record {
  buff = memory;
  buff_index = 0;
  rx_queue = [];
  msg_queue = [];
  switch_presses = 0;
  led = lit;
  timer = false;
  sent = prompt ∷ [];
}

-- What can come next: an interrupt, whose handler runs between two rounds of the loop, or a round.
pub data Event : Type 0 where
  press : Event
  tick : Event
  receive_char : ℕ → Event
  round : Event

-- The timer's handler runs only while the timer is enabled.
unfoldable pub step : Enqueue → Event → Board → Board
step enqueue press b = switch_pressed_isr enqueue b
step enqueue tick b = if b.timer then timer_callback_isr enqueue b else b
step enqueue (receive_char c) b = uart_rx_isr enqueue c b
step enqueue round b = (loop_round b).1

unfoldable pub run : Enqueue → List Event → Board → Board
run enqueue [] b = b
run enqueue (e ∷ es) b = run enqueue es (step enqueue e b)
