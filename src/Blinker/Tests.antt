-- ===== src/Blinker/Tests.antt =====
-- The theorems about the blinking LED at concrete inputs.
use university_collection.Prelude.{
  ℕ, ◌%◌, ◌≡◌, refl, false, ltb, if◌then◌else◌, arith, List, [], ◌∷◌, ◌++◌, ◌==◌,
}
use university_collection.Blinker.{
  Board, Enqueue, Event, press, receive_char, round, step, run, start_board, edit, enter,
}
use university_collection.Blinker.{
  check_uart, check_messg, loop_round, print_message, switch_pressed_isr, uart_rx_isr, is_aem,
  isdigit,
}
use university_collection.Blinker.Laws.{length, Appends, Fits}
use university_collection.Blinker.Editor.{Bounded, run-Bounded, enter_lem}
use university_collection.Blinker.Log.{reports, history}
use university_collection.Blinker.History.{reports-run}

-- A queue that drops what does not fit.
abbrev drop_late : Enqueue
drop_late size v q = if ltb (length q) size then q ++ (v ∷ []) else q

drop_late-Appends : Appends drop_late
drop_late-Appends size v q h = ground (arith, h)

abbrev zeros : ℕ → ℕ
zeros i = 0

-- Two presses, a character and the rounds that print.
abbrev two_presses : List Event
two_presses = press ∷ round ∷ receive_char 65 ∷ press ∷ round ∷ round ∷ round ∷ round ∷ []

two_presses-Fits : Fits drop_late two_presses (start_board zeros false)
unfolding step run start_board loop_round check_uart check_messg print_message switch_pressed_isr
    edit uart_rx_isr
two_presses-Fits = omega arith

run-Bounded_example : Bounded zeros (run drop_late two_presses (start_board zeros false))
unfolding start_board
run-Bounded_example =
    run-Bounded drop_late zeros two_presses (start_board zeros false)
      (record { inside = omega arith; behind = λ i h. refl })

-- Six digits, the last one odd.
abbrev odd_number : Board
unfolding start_board
odd_number = start_board (λ i. if ltb i 6 then 49 else 0) false

enter_lem_example :
    ((enter odd_number).timer ≡ (
      if is_aem odd_number.buff
      then (if isdigit (odd_number.buff 6) then odd_number.buff 6 else odd_number.buff 5) % 2 == 1
      else odd_number.timer))
    × ((enter odd_number).buff_index ≡ 0)
    × ((i : ℕ) → (enter odd_number).buff i ≡ (if ltb i 6 then 0 else odd_number.buff i))
unfolding odd_number start_board
enter_lem_example = enter_lem odd_number (λ h. refl)

two_presses_quiet : (run drop_late two_presses (start_board zeros false)).msg_queue ≡ []
unfolding step run start_board loop_round check_uart check_messg print_message switch_pressed_isr
    edit uart_rx_isr
two_presses_quiet = refl

reports-run_example :
    reports (run drop_late two_presses (start_board zeros false)).sent
    ≡ history drop_late 0 two_presses (start_board zeros false)
reports-run_example =
    reports-run drop_late two_presses zeros false drop_late-Appends two_presses-Fits
      two_presses_quiet
