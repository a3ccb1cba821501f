-- ===== src/Blinker/Editor.antt =====
-- The line editor of Microprocessors_And_Peripherals/02. GPIO, Interrupts, Timers/main.c: the bounds of
-- its buffer, and what the number that was entered does to the timer.
use university_collection.Prelude.{ℕ, ◌%◌, ◌≤◌, ◌≡◌, refl}
use university_collection.Prelude.{true, false, ltb, ◌==◌, if◌then◌else◌}
use university_collection.Prelude.{List, [], ◌∷◌, inl, inr, Bool-cases, arith}
use university_collection.Blinker.{
  Board, Enqueue, Event, press, tick, receive_char, round, step, run,
}
use university_collection.Blinker.{
  or_messg, take_character, take_message, switch_pressed_isr, timer_callback_isr, uart_rx_isr,
  print_message, check_messg,
}
use university_collection.Blinker.{
  check_aem, enter, edit, check_uart, loop_round, is_aem, digits_from, digits_value, atoi, isdigit,
}

-- The index is inside the buffer of six or just behind it, and the memory behind the buffer is `memory`.
pub record Bounded (memory : ℕ → ℕ) (b : Board) : Type 0 where
  pub inside : b.buff_index ≤ 6
  pub behind : (i : ℕ) → 6 ≤ i → b.buff i ≡ memory i

edit-Bounded : (memory : ℕ → ℕ) (c : ℕ) (b : Board) → Bounded memory b → Bounded memory (edit c b)
unfolding edit enter check_aem
edit-Bounded memory c b w = record {
  inside = ground (arith, w.inside);
  behind = λ i h. ground (arith, w.inside, w.behind i h);
}

edit_taken :
    (memory : ℕ → ℕ) (c : ℕ) (rest : List ℕ) (b : Board)
    → Bounded memory b
    → Bounded memory (edit c (record b { rx_queue = rest }))
edit_taken memory c rest b w =
    edit-Bounded memory c (record b { rx_queue = rest })
      (record { inside = w.inside; behind = w.behind })

check_messg-Bounded :
    (memory : ℕ → ℕ) (q : List ℕ) (b : Board)
    → Bounded memory b
    → Bounded memory (take_message q b).1
unfolding print_message
check_messg-Bounded memory [] b w = w
check_messg-Bounded memory (m ∷ q) b w = record { inside = w.inside; behind = w.behind }

taken-Bounded :
    (memory : ℕ → ℕ) (q : List ℕ) (b : Board)
    → Bounded memory b
    → Bounded memory (or_messg (take_character q b)).1
unfolding check_messg
taken-Bounded memory [] b w = check_messg-Bounded memory b.msg_queue b w
taken-Bounded memory (c ∷ q) b w = edit_taken memory c q b w

step-Bounded :
    (enqueue : Enqueue) (memory : ℕ → ℕ) (e : Event) (b : Board)
    → Bounded memory b
    → Bounded memory (step enqueue e b)
unfolding step switch_pressed_isr timer_callback_isr uart_rx_isr loop_round check_uart
step-Bounded enqueue memory press b w = record { inside = w.inside; behind = w.behind }
step-Bounded enqueue memory tick b w = record {
  inside = ground (arith, w.inside);
  behind = λ i h. ground (arith, w.behind i h);
}
step-Bounded enqueue memory (receive_char c) b w = record {
  inside = ground (arith, w.inside);
  behind = λ i h. ground (arith, w.behind i h);
}
step-Bounded enqueue memory round b w = taken-Bounded memory b.rx_queue b w

-- Whatever interrupts and characters come in whatever order, and whatever `queue_enqueue` does, the
-- index never exceeds six and no byte behind the buffer of six is written.
pub run-Bounded :
    (enqueue : Enqueue) (memory : ℕ → ℕ) (es : List Event) (b : Board)
    → Bounded memory b
    → Bounded memory (run enqueue es b)
unfolding run
run-Bounded enqueue memory [] b w = w
run-Bounded enqueue memory (e ∷ es) b w =
    run-Bounded enqueue memory es (step enqueue e b) (step-Bounded enqueue memory e b w)

-- Backspace just before Return is without effect on the timer: it moves the index and leaves the
-- character in the buffer, and `checkAEM` reads the whole buffer.
enter-backspace : (b : Board) → (edit 13 (edit 8 b)).timer ≡ (edit 13 b).timer
unfolding edit enter check_aem
enter-backspace b = elim (Bool-cases (ltb 0 b.buff_index)) [ inl e ↦ rw e refl | inr e ↦ rw e refl ]

-- The six characters of a valid number are digits.
digit_at :
    (buff : ℕ → ℕ)
    → is_aem buff ≡ true
    → (isdigit (buff 0) ≡ true)
      × (isdigit (buff 1) ≡ true)
      × (isdigit (buff 2) ≡ true)
      × (isdigit (buff 3) ≡ true)
      × (isdigit (buff 4) ≡ true)
      × (isdigit (buff 5) ≡ true)
unfolding is_aem digits_from
digit_at buff e =
    (ground arith, ground arith, ground arith, ground arith, ground arith, ground arith)

atoi_six :
    (buff : ℕ → ℕ) → is_aem buff ≡ true → isdigit (buff 6) ≡ false → atoi buff % 2 ≡ (buff 5) % 2
unfolding atoi digits_value
atoi_six buff e f =
    let (a0, a1, a2, a3, a4, a5) = digit_at buff e in rw (a0, a1, a2, a3, a4, a5, f) (ground arith)

atoi_seven :
    (buff : ℕ → ℕ)
    → is_aem buff ≡ true
    → isdigit (buff 6) ≡ true
    → isdigit (buff 7) ≡ false
    → atoi buff % 2 ≡ (buff 6) % 2
unfolding atoi digits_value
atoi_seven buff e f g =
    let (a0, a1, a2, a3, a4, a5) = digit_at buff e in
    rw (a0, a1, a2, a3, a4, a5, f, g) (ground arith)

-- If the byte behind the buffer is a digit, the next one is not. Then Return with six digits in the
-- buffer starts the timer exactly when the last of them is odd, where the byte behind the buffer is not a
-- digit. Where it is one, that byte decides, since the buffer has no room for the terminator that `atoi`
-- looks for. With fewer digits Return leaves the timer alone. In each case it empties the line, and
-- nothing behind the buffer is written.
pub enter_lem :
    (b : Board)
    → (isdigit (b.buff 6) ≡ true → isdigit (b.buff 7) ≡ false)
    → ((enter b).timer ≡ (
        if is_aem b.buff
        then (if isdigit (b.buff 6) then b.buff 6 else b.buff 5) % 2 == 1
        else b.timer))
      × ((enter b).buff_index ≡ 0)
      × ((i : ℕ) → (enter b).buff i ≡ (if ltb i 6 then 0 else b.buff i))
unfolding enter check_aem
enter_lem b g = elim (Bool-cases (is_aem b.buff)) [
  | inl e ↦ (
    elim (Bool-cases (isdigit (b.buff 6))) [
      | inl f ↦ ground (arith, e, f, atoi_seven b.buff e f (g f))
      | inr f ↦ ground (arith, e, f, atoi_six b.buff e f)
    ],
    refl,
    λ i. refl,
  )
  | inr e ↦ (ground (arith, e), refl, λ i. refl)
]
