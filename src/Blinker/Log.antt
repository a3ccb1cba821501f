-- ===== src/Blinker/Log.antt =====
-- What Microprocessors_And_Peripherals/02. GPIO, Interrupts, Timers/main.c reports on the terminal,
-- against what happened: presses of the switch and ticks of the timer, in their order.
use university_collection.Prelude.{ℕ, ◌+◌, ◌<◌, ◌≡◌, refl, sym, ap, ◌∙◌}
use university_collection.Prelude.{Bool, not, ◌==◌, if◌then◌else◌}
use university_collection.Prelude.{List, [], ◌∷◌, ◌++◌, arith}
use mathlib.Core.List.{append_assoc, append-nil}
use university_collection.Blinker.{
  Sent, echo, new_line, prompt, refusal, led_off, led_on, keypresses, garbage,
}
use university_collection.Blinker.{
  Board, Enqueue, Event, press, tick, receive_char, round, step, queue_size,
}
use university_collection.Blinker.{or_messg, take_character, take_message}
use university_collection.Blinker.{print_message, check_messg, check_aem, enter, edit}
use university_collection.Blinker.Laws.{length, Appends}

-- The texts on the terminal that come from messages.
abbrev pub reports : List Sent → List Sent
reports [] = []
reports (echo c ∷ rest) = reports rest
reports (new_line ∷ rest) = reports rest
reports (prompt ∷ rest) = reports rest
reports (refusal ∷ rest) = reports rest
reports (led_off ∷ rest) = led_off ∷ reports rest
reports (led_on ∷ rest) = led_on ∷ reports rest
reports (keypresses n ∷ rest) = keypresses n ∷ reports rest
reports (garbage ∷ rest) = garbage ∷ reports rest

abbrev text_of : ℕ → ℕ → Sent
text_of presses msg =
    if msg == 0
    then led_off
    else if msg == 1
    then led_on
    else if msg == 2
    then keypresses presses
    else garbage

abbrev counted : ℕ → ℕ → ℕ
counted presses msg = if msg == 2 then presses + 1 else presses

-- What the messages that wait will print, and the count of presses after them.
abbrev pub waiting : ℕ → List ℕ → List Sent
waiting presses [] = []
waiting presses (msg ∷ rest) =
    text_of (counted presses msg) msg ∷ waiting (counted presses msg) rest

abbrev counted_all : ℕ → List ℕ → ℕ
counted_all presses [] = presses
counted_all presses (msg ∷ rest) = counted_all (counted presses msg) rest

abbrev pub led_text : Bool → Sent
led_text lit = if lit then led_on else led_off

-- The record of the events from a board on, where `n` presses came before: a press changes the LED and
-- is counted, a tick of the running timer changes the LED.
abbrev pub history : Enqueue → ℕ → List Event → Board → List Sent
history enqueue n [] b = []
history enqueue n (press ∷ es) b =
    led_text (not b.led) ∷ keypresses (n + 1) ∷ history enqueue (n + 1) es (step enqueue press b)
history enqueue n (tick ∷ es) b =
    let later = history enqueue n es (step enqueue tick b) in
    if b.timer then led_text (not b.led) ∷ later else later
history enqueue n (receive_char c ∷ es) b = history enqueue n es (step enqueue (receive_char c) b)
history enqueue n (round ∷ es) b = history enqueue n es (step enqueue round b)

-- What has been reported, and what the messages that wait will report.
abbrev pub told : Board → List Sent
told b = reports b.sent ++ waiting b.switch_presses b.msg_queue

abbrev pub presses : Board → ℕ
presses b = counted_all b.switch_presses b.msg_queue

reports-append : (xs ys : List Sent) → reports (xs ++ ys) ≡ reports xs ++ reports ys
reports-append [] ys = refl
reports-append (echo c ∷ xs) ys = reports-append xs ys
reports-append (new_line ∷ xs) ys = reports-append xs ys
reports-append (prompt ∷ xs) ys = reports-append xs ys
reports-append (refusal ∷ xs) ys = reports-append xs ys
reports-append (led_off ∷ xs) ys = ap (λ l. led_off ∷ l) (reports-append xs ys)
reports-append (led_on ∷ xs) ys = ap (λ l. led_on ∷ l) (reports-append xs ys)
reports-append (keypresses n ∷ xs) ys = ap (λ l. keypresses n ∷ l) (reports-append xs ys)
reports-append (garbage ∷ xs) ys = ap (λ l. garbage ∷ l) (reports-append xs ys)

waiting-append :
    (n : ℕ) (q : List ℕ) (m : ℕ)
    → waiting n (q ++ (m ∷ [])) ≡ waiting n q ++ (text_of (counted (counted_all n q) m) m ∷ [])
waiting-append n [] m = refl
waiting-append n (x ∷ q) m =
    ap (λ l. text_of (counted n x) x ∷ l) (waiting-append (counted n x) q m)

counted_all-append :
    (n : ℕ) (q : List ℕ) (m : ℕ) → counted_all n (q ++ (m ∷ [])) ≡ counted (counted_all n q) m
counted_all-append n [] m = refl
counted_all-append n (x ∷ q) m = counted_all-append (counted n x) q m

-- A step that adds `news` to the record and leaves `n` presses.
pub record Tells (news : List Sent) (n : ℕ) (b c : Board) : Type 0 where
  pub adds : told c ≡ told b ++ news
  pub count : presses c ≡ n

-- An edit of the line sends no report and leaves the messages alone.
edit_untold :
    (c : ℕ) (b : Board)
    → (reports (edit c b).sent ≡ reports b.sent)
      × ((edit c b).msg_queue ≡ b.msg_queue)
      × ((edit c b).switch_presses ≡ b.switch_presses)
unfolding edit enter check_aem
edit_untold c b = (
  ground (
    arith,
    reports-append b.sent (echo c ∷ []),
    reports-append b.sent (new_line ∷ []),
    reports-append (b.sent ++ (new_line ∷ [])) (prompt ∷ []),
    reports-append b.sent (refusal ∷ []),
    append-nil (reports b.sent),
  ),
  ground arith,
  ground arith,
)

-- A message is printed: what it told while it waited is told by the terminal.
print-told :
    (m : ℕ) (q : List ℕ) (b : Board)
    → told (print_message m (record b { msg_queue = q }))
      ≡ reports b.sent ++ waiting b.switch_presses (m ∷ q)
unfolding print_message
print-told m q b = ground (
  arith,
  reports-append b.sent (text_of (counted b.switch_presses m) m ∷ []),
  append_assoc (reports b.sent) (text_of (counted b.switch_presses m) m ∷ [])
      (waiting (counted b.switch_presses m) q),
)

pub same_told : (b c : Board) → told c ≡ told b → presses c ≡ presses b → Tells [] (presses b) b c
same_told b c e f = record { adds = e ∙ sym (append-nil (told b)); count = f }

message_Tells :
    (q : List ℕ) (b : Board) → b.msg_queue ≡ q → Tells [] (presses b) b (take_message q b).1
unfolding print_message
message_Tells [] b e = same_told b b refl refl
message_Tells (m ∷ q) b e =
    same_told b _
      (print-told m q b ∙ ap (λ l. reports b.sent ++ waiting b.switch_presses l) (sym e))
      (ap (λ l. counted_all b.switch_presses l) (sym e))

edit-Tells :
    (c : ℕ) (q : List ℕ) (b : Board) → Tells [] (presses b) b (edit c (record b { rx_queue = q }))
edit-Tells c q b =
    let (s, m, p) = edit_untold c (record b { rx_queue = q }) in
    same_told b _ (λ i. s i ++ waiting (p i) (m i)) (λ i. counted_all (p i) (m i))

pub round_Tells :
    (q : List ℕ) (b : Board) → Tells [] (presses b) b (or_messg (take_character q b)).1
unfolding check_messg
round_Tells [] b = message_Tells b.msg_queue b refl
round_Tells (c ∷ q) b = edit-Tells c q b

-- A message that is put into the queue.
pub put_Tells :
    (enqueue : Enqueue) (m : ℕ) (b : Board)
    → Appends enqueue
    → length b.msg_queue < queue_size
    → Tells
        (text_of (counted (presses b) m) m ∷ [])
        (counted (presses b) m)
        b
        (record b { msg_queue = enqueue queue_size m b.msg_queue })
put_Tells enqueue m b law h =
    let e = law queue_size m b.msg_queue h in
    record {
      adds =
          ap (λ q. reports b.sent ++ waiting b.switch_presses q) e
          ∙ ap (λ l. reports b.sent ++ l) (waiting-append b.switch_presses b.msg_queue m)
          ∙ sym (append_assoc (reports b.sent) (waiting b.switch_presses b.msg_queue) _);
      count =
          ap (λ q. counted_all b.switch_presses q) e
          ∙ counted_all-append b.switch_presses b.msg_queue m;
    }
