-- ===== src/Sailing/Program/Keys.antt =====
-- Each screen of Structured_Programming/main.c that returns has taken keys.
use university_collection.Prelude.{
  ◌≢◌, ◌∙◌, ℕ, zero, suc, ◌+◌, ◌≤◌, ◌<◌, ◌≡◌, refl, sym, subst, inl, inr, arith,
}
use university_collection.Prelude.{Bool, ◌==◌, if_elim, Bool-cases}
use university_collection.Prelude.{==→≢}
use university_collection.Prelude.{Option, none, some, Option-cases, List, [], ◌∷◌}
use university_collection.Sailing.State.{Game}
use university_collection.Sailing.Wind.{Rng, windchange}
use university_collection.Sailing.Turn.{plan_all, sailed, play_turn}
use university_collection.Sailing.Match.{Match, waiting, over, out_of_fuel, count_dead, game_loop}
use university_collection.Sailing.Match.Keys.{length, Takes, Takes-le, plan_all-Takes}
use university_collection.Sailing.Match.Ends.{RoundOk, play_turn-RoundOk, next_round}
use university_collection.Sailing.Menu.{
  enter, menu_step, menu_loop, menu_manager, Entry, name_step, name_loop, name_select,
}

menu_loop-Takes :
    (previous next min max selection input : ℕ) (keys : List ℕ)
    → Takes (suc (length keys)) (menu_loop previous next min max selection input keys)
unfolding menu_loop
menu_loop-Takes previous next min max selection input [] =
    elim (Option-cases (menu_step previous next min max selection input)) [
      | inl left ↦ rw (Takes, left) (omega arith)
      | inr (s, stays) ↦ rw (Takes, stays) tt
    ]
menu_loop-Takes previous next min max selection input (key ∷ keys) =
    elim (Option-cases (menu_step previous next min max selection input)) [
      | inl left ↦ rw (Takes, left) (omega arith)
      | inr (s, stays) ↦
          rw (Takes, stays)
            (if_elim (Takes (suc (suc (length keys)))) (key == enter) _ _ (λ _. omega arith)
              (λ _.
                Takes-le (menu_loop previous next min max s key keys) (suc (length keys))
                  (suc (suc (length keys))) (omega arith)
                  (menu_loop-Takes previous next min max s key keys)))
    ]

-- The round before the first key does not leave the menu.
first_stays :
    (previous next min max selection : ℕ)
    → (s : ℕ) × (menu_step previous next min max selection 0 ≡ some s)
unfolding menu_step
first_stays previous next min max selection = elim (Bool-cases (0 == previous)) [
  | inl e ↦ rw e (_, refl)
  | inr e ↦ elim (Bool-cases (0 == next)) [
    | inl f ↦ rw (e, f) (_, refl)
    | inr f ↦ rw (e, f) (_, refl)
  ]
]

pub menu_manager-Takes :
    (previous next min max : ℕ) (keys : List ℕ)
    → Takes (length keys) (menu_manager previous next min max keys)
unfolding menu_manager menu_loop
menu_manager-Takes previous next min max [] =
    let (s, stays) = first_stays previous next min max min in rw (Takes, stays) tt
menu_manager-Takes previous next min max (key ∷ keys) =
    let (s, stays) = first_stays previous next min max min in
    rw (Takes, stays)
      (if_elim (Takes (suc (length keys))) (key == enter) _ _ (λ _. omega arith)
        (λ _. menu_loop-Takes previous next min max s key keys))

name_loop-Takes :
    (e : Entry) (input : ℕ) (keys : List ℕ) → Takes (suc (length keys)) (name_loop e input keys)
unfolding name_loop
name_loop-Takes e input [] = elim (Option-cases (name_step e input)) [
  | inl left ↦ rw (Takes, left) (omega arith)
  | inr (s, stays) ↦ rw (Takes, stays) tt
]
name_loop-Takes e input (key ∷ keys) = elim (Option-cases (name_step e input)) [
  | inl left ↦ rw (Takes, left) (omega arith)
  | inr (f, stays) ↦
      let more : (h : Entry) (k : ℕ) → Takes (suc (suc (length keys))) (name_loop h k keys) = λ h k.
        Takes-le (name_loop h k keys) (suc (length keys)) _ (omega arith)
          (name_loop-Takes h k keys) in
      rw (Takes, stays)
        (if_elim (Takes (suc (suc (length keys)))) (key == enter) _ _
          (λ _.
            if_elim (Takes (suc (suc (length keys)))) (f.position == 0) _ _
              (λ _. more (record f { position = 0 }) 0) (λ _. omega arith))
          (λ _. more f key))
]

pub name_select-Takes : (g : Game) (keys : List ℕ) → Takes (suc (length keys)) (name_select g keys)
unfolding name_select
name_select-Takes g keys = name_loop-Takes (record { game = g; position = 0 }) 0 keys

play_turn-Takes :
    (rng : Rng) (players difficulty : ℕ) (g : Game) (keys : List ℕ)
    → Takes (suc (length keys)) (play_turn rng players difficulty g keys)
unfolding play_turn
play_turn-Takes rng players difficulty g keys =
    let start = windchange rng (record g { player_turn = 1 }) difficulty in
    let t = plan_all-Takes players 1 start keys in
    elim (Option-cases (plan_all players 1 start keys)) [
      | inl waits ↦ subst (λ r. Takes (suc (length keys)) (sailed rng players r)) (sym waits) tt
      | inr ((h, rest), done) ↦
          subst (λ r. Takes (suc (length keys)) (sailed rng players r)) (sym done)
            (subst (Takes (suc (length keys))) done t)
    ]

-- A game that is over leaves fewer than `m` keys.
abbrev pub Leaves : ℕ → Match → Type 0
Leaves m waiting = Unit
Leaves m (over g won keys) = length keys < m
Leaves m out_of_fuel = ⊥

Leaves-le : (r : Match) (m n : ℕ) → m ≤ n → Leaves m r → Leaves n r
Leaves-le waiting m n h l = tt
Leaves-le (over g won keys) m n h l = omega (arith, h, l)
Leaves-le out_of_fuel m n h l = l

-- What a round leaves is left by the loop, if the later rounds do so.
round-Leaves :
    (rng : Rng) (players difficulty fuel dead m : ℕ) (g : Game) (keys : List ℕ)
    → (dead ≢ players → Takes m (play_turn rng players difficulty g keys))
    → m ≤ suc (length keys)
    → ((h : Game) (rest : List ℕ)
        → length rest < m
        → Leaves (suc (length rest)) (
            game_loop rng players difficulty fuel
              (count_dead players 0 h)
              (record h { cur_round = h.cur_round + 1 })
              rest))
    → Leaves (suc (length keys)) (game_loop rng players difficulty (suc fuel) dead g keys)
unfolding game_loop
round-Leaves rng players difficulty fuel dead m g keys taken few later =
    elim (Bool-cases (dead == players)) [
      | inl full ↦ rw full (omega arith)
      | inr left ↦
          let t = taken (==→≢ dead players left) in
          elim (Option-cases (play_turn rng players difficulty g keys)) [
            | inl waits ↦ rw (left, waits) tt
            | inr (((h, won), rest), done) ↦
                let fewer : length rest < m = subst (Takes m) done t in
                rw (left, done)
                  (if_elim (Leaves (suc (length keys))) won _ _ (λ _. omega (arith, fewer, few))
                    (λ _.
                      Leaves-le _ (suc (length rest)) (suc (length keys))
                        (omega (arith, fewer, few)) (later h rest fewer)))
          ]
    ]

RoundOk-Takes : (m : ℕ) (r : Option ((Game × Bool) × List ℕ)) → RoundOk m r → Takes m r
RoundOk-Takes m none ok = tt
RoundOk-Takes m (some ((h, won), rest)) ok = ok.0

-- With the right count of the dead, each round takes a key.
counted-Leaves :
    (rng : Rng) (players difficulty fuel : ℕ) (g : Game) (keys : List ℕ)
    → length keys < fuel
    → (dead : ℕ) → dead ≡ count_dead players 0 g
    → Leaves (suc (length keys)) (game_loop rng players difficulty fuel dead g keys)
counted-Leaves rng players difficulty zero g keys enough dead e = absurd (omega (arith, enough))
counted-Leaves rng players difficulty (suc fuel) g keys enough dead e =
    round-Leaves rng players difficulty fuel dead (length keys) g keys
      (λ ne.
        RoundOk-Takes (length keys) _
          (play_turn-RoundOk rng players difficulty g keys (λ q. ne (e ∙ q))))
      (omega arith)
      (λ h rest fewer.
        counted-Leaves rng players difficulty fuel (record h { cur_round = h.cur_round + 1 }) rest
          (omega (arith, enough, fewer)) (count_dead players 0 h)
          (next_round players 0 (h.cur_round + 1) h))

-- With any count, the first round may take none.
pub game_loop-Leaves :
    (rng : Rng) (players difficulty fuel dead : ℕ) (g : Game) (keys : List ℕ)
    → suc (length keys) < fuel
    → Leaves (suc (length keys)) (game_loop rng players difficulty fuel dead g keys)
game_loop-Leaves rng players difficulty zero dead g keys enough = absurd (omega (arith, enough))
game_loop-Leaves rng players difficulty (suc fuel) dead g keys enough =
    round-Leaves rng players difficulty fuel dead (suc (length keys)) g keys
      (λ _. play_turn-Takes rng players difficulty g keys) (omega arith)
      (λ h rest fewer.
        counted-Leaves rng players difficulty fuel (record h { cur_round = h.cur_round + 1 }) rest
          (omega (arith, enough, fewer)) (count_dead players 0 h)
          (next_round players 0 (h.cur_round + 1) h))
