-- ===== src/Blinker/History.antt =====
-- The whole run of Microprocessors_And_Peripherals/02. GPIO, Interrupts, Timers/main.c: its reports are
-- the record of the presses and ticks.
use university_collection.Prelude.{ℕ, ◌+◌, ◌<◌, ◌≡◌, refl, sym, ap, ◌∙◌, subst}
use university_collection.Prelude.{Bool, true, false, not, leb, ◌&&◌, if◌then◌else◌}
use university_collection.Prelude.{List, [], ◌∷◌, ◌++◌, inl, inr, Bool-cases, arith}
use mathlib.Core.List.{append_assoc, append-nil}
use university_collection.Blinker.{Sent, keypresses}
use university_collection.Blinker.{
  Board, Enqueue, Event, press, tick, receive_char, round, step, run, led_bit, queue_size,
}
use university_collection.Blinker.{start_board, switch_pressed_isr}
use university_collection.Blinker.{timer_callback_isr, uart_rx_isr, check_uart, loop_round}
use university_collection.Blinker.Laws.{length, Appends, Room, Fits, length-append}
use university_collection.Blinker.Log.{reports, waiting, history, led_text, told, presses}
use university_collection.Blinker.Log.{Tells, same_told, round_Tells, put_Tells}

-- A message about the LED.
put_led :
    (enqueue : Enqueue) (lit : Bool) (b : Board)
    → Appends enqueue
    → length b.msg_queue < queue_size
    → Tells
        (led_text lit ∷ [])
        (presses b)
        b
        (record b { msg_queue = enqueue queue_size (led_bit lit) b.msg_queue })
put_led enqueue true b law h = put_Tells enqueue 1 b law h
put_led enqueue false b law h = put_Tells enqueue 0 b law h

Tells-then :
    (b c d : Board) (xs ys : List Sent) (m n : ℕ)
    → Tells xs m b c
    → Tells ys n c d
    → Tells (xs ++ ys) n b d
Tells-then b c d xs ys m n t u = record {
  adds = u.adds ∙ ap (λ l. l ++ ys) t.adds ∙ append_assoc (told b) xs ys;
  count = u.count;
}

press-Tells :
    (enqueue : Enqueue) (b : Board)
    → Appends enqueue
    → Room press b
    → Tells
        (led_text (not b.led) ∷ keypresses (presses b + 1) ∷ [])
        (presses b + 1)
        b
        (switch_pressed_isr enqueue b)
unfolding switch_pressed_isr
press-Tells enqueue b law h =
    let lit = not b.led in
    let c : Board = record b { timer = false; led = lit } in
    let d : Board = record c { msg_queue = enqueue queue_size (led_bit lit) c.msg_queue } in
    let room : length d.msg_queue < queue_size =
      let e = law queue_size (led_bit lit) b.msg_queue (omega (arith, h)) in
      omega (arith, h, ap length e, length-append b.msg_queue (led_bit lit)) in
    let t : Tells (led_text lit ∷ []) (presses b) c d =
      put_led enqueue lit c law (omega (arith, h)) in
    let u : Tells (keypresses (presses d + 1) ∷ []) (presses d + 1) d _ =
      put_Tells enqueue 2 d law room in
    let v : Tells (keypresses (presses b + 1) ∷ []) (presses b + 1) d _ =
      subst
        (λ n.
          Tells (keypresses (n + 1) ∷ []) (n + 1) d
            (record d { msg_queue = enqueue queue_size 2 d.msg_queue }))
        t.count u in
    let w = Tells-then c d _ _ _ _ _ t v in record { adds = w.adds; count = w.count }

-- What a step adds to the record.
abbrev news : Event → Board → List Sent
news press b = led_text (not b.led) ∷ keypresses (presses b + 1) ∷ []
news tick b = if b.timer then led_text (not b.led) ∷ [] else []
news (receive_char c) b = []
news round b = []

abbrev pressed : Event → ℕ → ℕ
pressed press n = n + 1
pressed tick n = n
pressed (receive_char c) n = n
pressed round n = n

step-Tells :
    (enqueue : Enqueue) (e : Event) (b : Board)
    → Appends enqueue
    → Room e b
    → Tells (news e b) (pressed e (presses b)) b (step enqueue e b)
unfolding step timer_callback_isr uart_rx_isr loop_round check_uart
step-Tells enqueue press b law h = press-Tells enqueue b law h
step-Tells enqueue tick b law h = elim (Bool-cases b.timer) [
  | inl e ↦
      let t = put_led enqueue (not b.led) b law (omega (arith, h)) in
      simp e (record { adds = t.adds; count = t.count })
  | inr e ↦ simp e (same_told b b refl refl)
]
step-Tells enqueue (receive_char c) b law h = elim (Bool-cases (leb 0 c && leb c 127)) [
  | inl e ↦ rw e (same_told b _ refl refl)
  | inr e ↦ rw e (same_told b b refl refl)
]
step-Tells enqueue round b law h = round_Tells b.rx_queue b

history-news :
    (enqueue : Enqueue) (n : ℕ) (e : Event) (es : List Event) (b : Board)
    → n ≡ presses b
    → history enqueue n (e ∷ es) b ≡ news e b ++ history enqueue (pressed e n) es (step enqueue e b)
history-news enqueue n press es b h =
    ap
      (λ k.
        led_text (not b.led)
        ∷ keypresses (k + 1)
        ∷ history enqueue (n + 1) es (step enqueue press b))
      h
history-news enqueue n tick es b h = elim (Bool-cases b.timer) [
  | inl e ↦ simp e refl
  | inr e ↦ simp e refl
]
history-news enqueue n (receive_char c) es b h = refl
history-news enqueue n round es b h = refl

told-run :
    (enqueue : Enqueue) (es : List Event) (b : Board)
    → Appends enqueue
    → Fits enqueue es b
    → told (run enqueue es b) ≡ told b ++ history enqueue (presses b) es b
unfolding run
told-run enqueue [] b law h = sym (append-nil (told b))
told-run enqueue (e ∷ es) b law h =
    let t = step-Tells enqueue e b law h.0 in
    let c = step enqueue e b in
    told-run enqueue es c law h.1
    ∙ (λ i. t.adds i ++ history enqueue (t.count i) es c)
    ∙ append_assoc (told b) (news e b) (history enqueue (pressed e (presses b)) es c)
    ∙ ap (λ l. told b ++ l) (sym (history-news enqueue (presses b) e es b refl))

-- From the start, with the message queue empty again, the terminal has reported each press and each
-- tick of the running timer, in order and once, if the message queue had room throughout.
pub reports-run :
    (enqueue : Enqueue) (es : List Event) (memory : ℕ → ℕ) (lit : Bool)
    → Appends enqueue
    → Fits enqueue es (start_board memory lit)
    → (run enqueue es (start_board memory lit)).msg_queue ≡ []
    → reports (run enqueue es (start_board memory lit)).sent
      ≡ history enqueue 0 es (start_board memory lit)
unfolding start_board
reports-run enqueue es memory lit law h quiet =
    let c = run enqueue es (start_board memory lit) in
    sym (append-nil (reports c.sent))
    ∙ ap (λ q. reports c.sent ++ waiting c.switch_presses q) (sym quiet)
    ∙ told-run enqueue es (start_board memory lit) law h
