-- ===== src/Sailing/Match/Keys.antt =====
-- A round of Structured_Programming/main.c takes a key from each player who is alive.
use university_collection.Prelude.{ℕ, zero, suc, ◌+◌, ◌-◌, ◌≤◌, ◌<◌, ◌≡◌, ap, ◌∙◌, inl, inr}
use university_collection.Prelude.{
  true, ◌==◌, Bool-cases, if_elim, Option, none, some, List, [], ◌∷◌, arith,
}
use university_collection.Sailing.Lake.{Lake}
use university_collection.Sailing.State.{Game}
use university_collection.Sailing.Course.{Draft, press, declare_loop, draft, max_moves, declaremove}
use university_collection.Sailing.Turn.{after_plan, plan_all}

abbrev pub length : List ℕ → ℕ
length [] = 0
length (key ∷ keys) = suc (length keys)

-- If there is a result, fewer than `n` keys are left.
abbrev pub Takes {ℓ} : {A : Type ℓ} → ℕ → Option (A × List ℕ) → Type 0
Takes n none = Unit
Takes n (some (a, rest)) = length rest < n

pub Takes-le {ℓ} : {A : Type ℓ} (r : Option (A × List ℕ)) (m n : ℕ) → m ≤ n → Takes m r → Takes n r
Takes-le none m n h t = tt
Takes-le (some (a, rest)) m n h t = omega (arith, t, h)

declare_loop-Takes :
    (b : Lake) (maxmoves : ℕ) (d : Draft) (input : ℕ) (keys : List ℕ)
    → Takes (length keys) (declare_loop b maxmoves d input keys)
unfolding declare_loop
declare_loop-Takes b maxmoves d input [] = tt
declare_loop-Takes b maxmoves d input (key ∷ keys) = elim (Bool-cases (key == 13)) [
  | inl enter ↦ rw enter (omega arith)
  | inr other ↦ rw other (
      Takes-le (declare_loop b maxmoves (press b maxmoves d input) key keys) (length keys) _
        (omega arith) (declare_loop-Takes b maxmoves (press b maxmoves d input) key keys))
]

declaremove-Takes : (g : Game) (keys : List ℕ) → Takes (length keys) (declaremove g keys)
unfolding declaremove
declaremove-Takes g keys = declare_loop-Takes g.lake (max_moves g) (draft g) 0 keys

after_plan-Takes :
    (next : Game → List ℕ → Option (Game × List ℕ)) (r : Option (Draft × List ℕ)) (m : ℕ)
    → ((g : Game) (keys : List ℕ) → Takes (suc (length keys)) (next g keys))
    → Takes m r
    → Takes m (after_plan next r)
after_plan-Takes next none m h t = tt
after_plan-Takes next (some (d, rest)) m h t =
    Takes-le (next d.game rest) (suc (length rest)) m (omega (arith, t)) (h d.game rest)

-- No keys are put back.
pub plan_all-Takes :
    (n player : ℕ) (g : Game) (keys : List ℕ) → Takes (suc (length keys)) (plan_all n player g keys)
unfolding plan_all
plan_all-Takes zero player g keys = omega arith
plan_all-Takes (suc n) player g keys =
    let h : Game = record g { player_turn = player } in
    if_elim (Takes (suc (length keys))) (g.alive (player - 1)) _ _
      (λ _.
        after_plan-Takes (plan_all n (suc player)) (declaremove h keys) (suc (length keys))
          (plan_all-Takes n (suc player))
          (Takes-le (declaremove h keys) (length keys) _ (omega arith) (declaremove-Takes h keys)))
      (λ _. plan_all-Takes n (suc player) h keys)

-- With a player who is alive among those who plan, a key is taken.
pub plan_all-alive :
    (n k q : ℕ) (g : Game) (keys : List ℕ)
    → k < n
    → g.alive (q + k) ≡ true
    → Takes (length keys) (plan_all n (suc q) g keys)
unfolding plan_all
plan_all-alive zero k q g keys h live = absurd (omega (arith, h))
plan_all-alive (suc n) zero q g keys h live =
    let turn : Game = record g { player_turn = suc q } in
    let here : g.alive (suc q - 1) ≡ true =
      ap g.alive (let e : suc q - 1 ≡ q + 0 = omega arith in e) ∙ live in
    rw here (
      after_plan-Takes (plan_all n (suc (suc q))) (declaremove turn keys) (length keys)
        (plan_all-Takes n (suc (suc q))) (declaremove-Takes turn keys))
plan_all-alive (suc n) (suc k) q g keys h live =
    let turn : Game = record g { player_turn = suc q } in
    if_elim (Takes (length keys)) (g.alive (suc q - 1)) _ _
      (λ _.
        after_plan-Takes (plan_all n (suc (suc q))) (declaremove turn keys) (length keys)
          (plan_all-Takes n (suc (suc q))) (declaremove-Takes turn keys))
      (λ _.
        plan_all-alive n k (suc q) turn keys (omega (arith, h))
          (ap g.alive (let e : suc q + k ≡ q + suc k = omega arith in e) ∙ live))
