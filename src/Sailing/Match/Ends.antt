-- ===== src/Sailing/Match/Ends.antt =====
-- The game of Structured_Programming/main.c comes to an end, and who has won.
use university_collection.Prelude.{
  Option-cases, ℕ, zero, suc, ◌+◌, ◌≤◌, ◌<◌, ◌≡◌, ◌≢◌, refl, sym, ap, ◌∙◌, subst, inl, inr,
}
use university_collection.Prelude.{
  Bool, true, false, ◌||◌, ◌==◌, if◌then◌else◌, if_elim, Bool-cases, ==→≡, ==→≢,
}
use university_collection.Prelude.{Option, none, some, List, arith}
use university_collection.Sailing.State.{Game}
use university_collection.Sailing.Wind.{Rng, windchange, windchange_level}
use university_collection.Sailing.Round.{
  fill4, wincheck, run_phases, moveplayers, move_all, show_wind,
}
use university_collection.Sailing.Screen.{setpreview}
use university_collection.Sailing.Turn.{plan_all, sailed, sail_turn, play_turn}
use university_collection.Sailing.Match.{Match, waiting, over, out_of_fuel, count_dead, game_loop}
use university_collection.Sailing.Match.Keys.{length, Takes, plan_all-alive}

-- A player has reached the finish.
abbrev SomeWinner : Game → Type 0
SomeWinner g = (g.winners 0 || g.winners 1 || g.winners 2 || g.winners 3) ≡ true

wincheck-SomeWinner : (g : Game) → (wincheck g).1 ≡ true → SomeWinner (wincheck g).0
unfolding wincheck
wincheck-SomeWinner g e = e

run_phases-SomeWinner :
    (rng : Rng) (players n phase : ℕ) (g : Game)
    → (run_phases rng players n phase g).1 ≡ true
    → SomeWinner (run_phases rng players n phase g).0
unfolding run_phases
run_phases-SomeWinner rng players zero phase g = λ e. absurd (ground (arith, e))
run_phases-SomeWinner rng players (suc n) phase g =
    let s = move_all rng phase players 0 (setpreview (wincheck g).0, λ _. false) in
    if_elim (λ (r : Game × Bool). r.1 ≡ true → SomeWinner r.0) (wincheck g).1 _ _
      (λ won _. wincheck-SomeWinner g won)
      (λ _. run_phases-SomeWinner rng players n (suc phase) (show_wind s.1 s.0))

sail_turn-SomeWinner :
    (rng : Rng) (players : ℕ) (g : Game)
    → (sail_turn rng players g).1 ≡ true
    → SomeWinner (sail_turn rng players g).0
unfolding sail_turn moveplayers
sail_turn-SomeWinner rng players g =
    let r = moveplayers rng players (record g { donemoving = fill4 g.donemoving false }) in
    if_elim (λ (q : Game × Bool). q.1 ≡ true → SomeWinner q.0) r.1 _ _
      (λ won _. run_phases-SomeWinner rng players 8 0 _ won) (λ _ e. absurd (ground (arith, e)))

windchange-alive :
    (rng : Rng) (g : Game) (difficulty : ℕ) → (windchange rng g difficulty).alive ≡ g.alive
unfolding windchange windchange_level
windchange-alive rng g zero = refl
windchange-alive rng g (suc zero) = refl
windchange-alive rng g (suc (suc zero)) = refl
windchange-alive rng g (suc (suc (suc n))) = refl

-- With a count that is not full, somebody is alive; with a full one, nobody.
count_dead_le : (n i : ℕ) (g : Game) → count_dead n i g ≤ n
unfolding count_dead
count_dead_le zero i g = omega arith
count_dead_le (suc n) i g =
    if_elim (λ k. k ≤ suc n) (g.alive i) _ _ (λ _. omega (arith, count_dead_le n (suc i) g))
      (λ _. omega (arith, count_dead_le n (suc i) g))

some_alive :
    (n i : ℕ) (g : Game) → count_dead n i g ≢ n → (k : ℕ) × (k < n) × (g.alive (i + k) ≡ true)
unfolding count_dead
some_alive zero i g ne = absurd (ne refl)
some_alive (suc n) i g ne = elim (Bool-cases (g.alive i)) [
  | inl live ↦ (0, omega arith, ap g.alive (let e : i + 0 ≡ i = omega arith in e) ∙ live)
  | inr dead ↦
      let (k, h, live) = some_alive n (suc i) g (λ e. (rw dead at ne) (omega (arith, e))) in
      (
        suc k,
        omega (arith, h),
        ap g.alive (let e : i + suc k ≡ suc i + k = omega arith in e) ∙ live,
      )
]

all_dead : (n i : ℕ) (g : Game) → count_dead n i g ≡ n → (k : ℕ) → k < n → g.alive (i + k) ≡ false
unfolding count_dead
all_dead zero i g e k h = absurd (omega (arith, h))
all_dead (suc n) i g e zero h = elim (Bool-cases (g.alive i)) [
  | inl live ↦ absurd (omega (arith, count_dead_le n (suc i) g, (rw live at e)))
  | inr dead ↦ ap g.alive (let q : i + 0 ≡ i = omega arith in q) ∙ dead
]
all_dead (suc n) i g e (suc k) h = elim (Bool-cases (g.alive i)) [
  | inl live ↦ absurd (omega (arith, count_dead_le n (suc i) g, (rw live at e)))
  | inr dead ↦
      ap g.alive (let q : i + suc k ≡ suc i + k = omega arith in q)
      ∙ all_dead n (suc i) g (omega (arith, (rw dead at e))) k (omega (arith, h))
]

pub next_round :
    (n i c : ℕ) (g : Game) → count_dead n i g ≡ count_dead n i (record g { cur_round = c })
unfolding count_dead
next_round zero i c g = refl
next_round (suc n) i c g = ap (λ k. if g.alive i then k else suc k) (next_round n (suc i) c g)

-- What is true of a round that was played: a key was taken, and a win has a winner.
abbrev pub RoundOk : ℕ → Option ((Game × Bool) × List ℕ) → Type 0
RoundOk m none = Unit
RoundOk m (some ((h, won), rest)) = (length rest < m) × (won ≡ true → SomeWinner h)

pub play_turn-RoundOk :
    (rng : Rng) (players difficulty : ℕ) (g : Game) (keys : List ℕ)
    → count_dead players 0 g ≢ players
    → RoundOk (length keys) (play_turn rng players difficulty g keys)
unfolding play_turn
play_turn-RoundOk rng players difficulty g keys ne =
    let start = windchange rng (record g { player_turn = 1 }) difficulty in
    let (k, few, live) = some_alive players 0 g ne in
    let still : start.alive (0 + k) ≡ true =
      ap (λ a. a (0 + k)) (windchange-alive rng (record g { player_turn = 1 }) difficulty) ∙ live in
    let t = plan_all-alive players k 0 start keys few still in
    elim (Option-cases (plan_all players 1 start keys)) [
      | inl waits ↦ subst (λ r. RoundOk (length keys) (sailed rng players r)) (sym waits) tt
      | inr ((h, rest), done) ↦
          subst (λ r. RoundOk (length keys) (sailed rng players r)) (sym done)
            (subst (Takes (length keys)) done t, sail_turn-SomeWinner rng players h)
    ]

-- The loop is over, or waits for a key; and a game that is over has a winner, or nobody is alive.
abbrev pub Decided : ℕ → Match → Type 0
Decided players waiting = Unit
Decided players (over g true keys) = SomeWinner g
Decided players (over g false keys) = (i : ℕ) → i < players → g.alive i ≡ false
Decided players out_of_fuel = ⊥

-- With more fuel than there are keys, the loop of `sailing` never runs out of it. It waits for a
-- further key, or it has returned: with a winner set if the result is 1, and with no player alive if
-- it is 0. The count of the dead that it starts with is right.
pub game_loop-Decided :
    (rng : Rng) (players difficulty fuel dead : ℕ) (g : Game) (keys : List ℕ)
    → dead ≡ count_dead players 0 g
    → length keys < fuel
    → Decided players (game_loop rng players difficulty fuel dead g keys)
unfolding game_loop
game_loop-Decided rng players difficulty zero dead g keys e enough = absurd (omega (arith, enough))
game_loop-Decided rng players difficulty (suc fuel) dead g keys e enough =
    elim (Bool-cases (dead == players)) [
      | inl full ↦
          let nobody = all_dead players 0 g (sym e ∙ ==→≡ dead players full) in
          rw full (λ i h. ap g.alive (let q : i ≡ 0 + i = omega arith in q) ∙ nobody i h)
      | inr left ↦
          let ok =
            play_turn-RoundOk rng players difficulty g keys (λ q. ==→≢ dead players left (e ∙ q)) in
          elim (Option-cases (play_turn rng players difficulty g keys)) [
            | inl waits ↦ rw (left, waits) tt
            | inr (((h, won), rest), played) ↦
                let (taken, winner) = subst (RoundOk (length keys)) played ok in
                rw (left, played)
                  (if_elim (Decided players) won _ _ (λ w. winner w)
                    (λ _.
                      game_loop-Decided rng players difficulty fuel (count_dead players 0 h)
                        (record h { cur_round = h.cur_round + 1 }) rest
                        (next_round players 0 (h.cur_round + 1) h) (omega (arith, taken, enough))))
          ]
    ]
