-- ===== src/Thermometer/Input.antt =====
-- What `get_uart_input` of Microprocessors_And_Peripherals/03. Final/main.c writes, and what `main`
-- makes of it.
use university_collection.Prelude.{ℕ, zero, suc, ◌-◌, ◌≤◌, ◌<◌, ◌≡◌, ◌≢◌, refl, ◌∙◌}
use university_collection.Prelude.{false, not, ◌&&◌, ltb, ◌==◌, if◌then◌else◌, if_elim}
use university_collection.Prelude.{Option, none, some, List, [], ◌∷◌, ≢→==, arith}
use university_collection.Thermometer.{
  Line, buff_size, receive, uart_loop, get_uart_input, overflowed,
}
use university_collection.Thermometer.{all_digits, is_valid_aem, answered, ask_aem}

-- From a line with buffer `b`: the index is inside the first five, and the rest of the buffer as it was.
record Within (b : ℕ → ℕ) (s : Line) : Type 0 where
  few : s.index ≤ 5
  rest : (i : ℕ) → 5 ≤ i → s.buff i ≡ b i

-- What a result of the loop is worth.
abbrev Ends : (ℕ → ℕ) → Option (Line × List ℕ) → Type 0
Ends b none = Unit
Ends b (some (s, cs)) = (s.index ≤ 5) × ((i : ℕ) → 5 ≤ i → s.buff i ≡ b i) × (overflowed s ≡ false)

receive-Within : (b : ℕ → ℕ) (s : Line) (c : ℕ) → s.index < 5 → Within b s → Within b (receive s c)
unfolding receive
receive-Within b s c room w = record {
  few = ground (arith, w.few);
  rest = λ i h. ground (arith, w.rest i h);
}

Within-Ends : (b : ℕ → ℕ) (s : Line) (cs : List ℕ) → Within b s → Ends b (some (s, cs))
unfolding overflowed
Within-Ends b s cs w = (w.few, w.rest, ground (arith, w.few))

uart_loop-Ends :
    (b : ℕ → ℕ) (s : Line) (cs : List ℕ) → s.index < 5 → Within b s → Ends b (uart_loop s cs)
unfolding uart_loop
uart_loop-Ends b s [] room w = tt
uart_loop-Ends b s (c ∷ cs) room w =
    let v = receive-Within b s c room w in
    if_elim (Ends b) (not (c == 13) && ltb (receive s c).index (buff_size - 1)) _ _
      (λ more. uart_loop-Ends b (receive s c) cs (ground arith) v)
      (λ last. Within-Ends b (receive s c) cs v)

-- Whatever is received, when `get_uart_input` returns it has written only to the first five places of
-- the buffer of six, its index is at most five, and it does not print its message about an overflow.
get_uart_input-Ends : (buff : ℕ → ℕ) (cs : List ℕ) → Ends buff (get_uart_input buff cs)
unfolding get_uart_input
get_uart_input-Ends buff cs =
    uart_loop-Ends buff (record { buff = buff; index = 0 }) cs (omega arith)
      (record { few = omega arith; rest = λ i h. refl })

never_valid : (buff : ℕ → ℕ) → buff 5 ≡ 0 → is_valid_aem buff ≡ false
unfolding is_valid_aem all_digits
never_valid buff e = rw e (ground arith)

asked_again :
    (n : ℕ) (buff : ℕ → ℕ) (r : Option (Line × List ℕ))
    → ((b : ℕ → ℕ) (cs : List ℕ) → b 5 ≡ 0 → ask_aem n b cs ≡ none)
    → buff 5 ≡ 0
    → Ends buff r
    → answered r (λ s rest. if is_valid_aem s.buff then some (s, rest) else ask_aem n s.buff rest)
      ≡ none
asked_again n buff none again e w = refl
asked_again n buff (some (s, rest)) again e w =
    let still : s.buff 5 ≡ 0 = w.1 5 (omega arith) ∙ e in
    rw (never_valid s.buff still) (again s.buff rest still)

-- `main` never gets past its question: the sixth character of the static buffer is 0 and stays 0, and
-- `isValidAEM` wants six digits; so after any number of answers, whatever they are, it asks again.
pub ask_aem_forever : (n : ℕ) (buff : ℕ → ℕ) (cs : List ℕ) → buff 5 ≡ 0 → ask_aem n buff cs ≡ none
unfolding ask_aem
ask_aem_forever zero buff cs e = refl
ask_aem_forever (suc n) buff cs e =
    asked_again n buff (get_uart_input buff cs) (λ b rest still. ask_aem_forever n b rest still) e
      (get_uart_input-Ends buff cs)

-- Five characters that are neither Backspace nor Return end the input, and are the first five of the
-- buffer; the later ones are left in the queue.
get_uart_input_five :
    (buff : ℕ → ℕ) (a b c d e : ℕ) (rest : List ℕ)
    → (a ≢ 8) × (a ≢ 13)
    → (b ≢ 8) × (b ≢ 13)
    → (c ≢ 8) × (c ≢ 13)
    → (d ≢ 8) × (d ≢ 13)
    → e ≢ 8
    → (s : Line) × (get_uart_input buff (a ∷ b ∷ c ∷ d ∷ e ∷ rest) ≡ some (s, rest))
      × (s.buff 0 ≡ a)
      × (s.buff 1 ≡ b)
      × (s.buff 2 ≡ c)
      × (s.buff 3 ≡ d)
      × (s.buff 4 ≡ e)
unfolding get_uart_input uart_loop receive
get_uart_input_five buff a b c d e rest ha hb hc hd he =
    let last : (not (e == 13) && false) ≡ false = ground arith in
    (
      record {
        buff = λ i.
            if i == 4
            then e
            else if i == 3
            then d
            else if i == 2
            then c
            else if i == 1
            then b
            else if i == 0
            then a
            else buff i;
        index = 5;
      },
      rw
          (
            ≢→== a 8 ha.0,
            ≢→== a 13 ha.1,
            ≢→== b 8 hb.0,
            ≢→== b 13 hb.1,
            ≢→== c 8 hc.0,
            ≢→== c 13 hc.1,
            ≢→== d 8 hd.0,
            ≢→== d 13 hd.1,
            ≢→== e 8 he,
            last,
          )
          refl,
      refl,
      refl,
      refl,
      refl,
      refl,
    )
