-- ===== src/Recorder/Average/History.antt =====
-- The history of the moving average of RealTime_Embedded_Systems/src/finnhub_data.cpp: the trades that it
-- took and the minutes in which it was asked, and the entries that they leave.
use university_collection.Prelude.{ℕ, ◌+◌, ◌-◌, ◌≡◌, refl, ap, ◌∙◌, inl, inr}
use university_collection.Prelude.{
  Bool, true, ltb, ◌==◌, if◌then◌else◌, Bool-cases, List, [], ◌∷◌, arith,
}
use university_collection.Recorder.Clock.{minute_floor_ms}
use university_collection.Recorder.Trade.{TradeData, worth}
use university_collection.Recorder.Minutes.{change, at, recent, at-change, recent-change}
use university_collection.Recorder.Average.{SimpleAverage, new_average, add_simple, MovingAverage}
use university_collection.Recorder.Average.{prune_loop}

-- A trade that was taken, or a minute in which the average was asked for.
pub data Noted : Type 0 where
  taken : TradeData → Noted
  asked : ℕ → Noted

abbrev pub minute_of : Noted → ℕ
minute_of (taken trade) = minute_floor_ms trade.timestamp
minute_of (asked minute) = minute

abbrev pub worth_of : Noted → ℕ
worth_of (taken trade) = worth trade
worth_of (asked minute) = 0

abbrev pub volume_of : Noted → ℕ
volume_of (taken trade) = trade.volume
volume_of (asked minute) = 0

abbrev pub note : Noted → SimpleAverage → SimpleAverage
note (taken trade) a = add_simple trade a
note (asked minute) a = a

-- The entries of a history, the last one first.
abbrev pub grouped : List Noted → List (ℕ × SimpleAverage)
grouped [] = []
grouped (e ∷ earlier) = change new_average (note e) (minute_of e) (grouped earlier)

-- The sum of `f` over the part of a history whose minutes pass a test.
abbrev pub sum_over : (ℕ → Bool) → (Noted → ℕ) → List Noted → ℕ
sum_over p f [] = 0
sum_over p f (e ∷ earlier) =
    let rest = sum_over p f earlier in if p (minute_of e) then rest + f e else rest

abbrev pub every : ℕ → Bool
every minute = true

-- The average that a history leaves.
abbrev pub average_of : ℕ → List Noted → MovingAverage
average_of minutes h = record {
  per_min_averages = grouped h;
  minutes_to_store = minutes;
  sum = sum_over every worth_of h;
  count = sum_over every volume_of h;
}

-- The part of a history from a minute on.
abbrev pub since : ℕ → List Noted → List Noted
since threshold [] = []
since threshold (e ∷ earlier) =
    let rest = since threshold earlier in if ltb (minute_of e) threshold then rest else e ∷ rest

pub recent-grouped :
    (threshold : ℕ) (h : List Noted) → recent threshold (grouped h) ≡ grouped (since threshold h)
recent-grouped threshold [] = refl
recent-grouped threshold (e ∷ h) =
    recent-change threshold new_average (note e) (minute_of e) (grouped h)
    ∙ (elim (Bool-cases (ltb (minute_of e) threshold)) [
      | inl old ↦ rw old (recent-grouped threshold h)
      | inr new ↦
          rw new (ap (change new_average (note e) (minute_of e)) (recent-grouped threshold h))
    ])

-- A sum over entries.
abbrev pub total : (SimpleAverage → ℕ) → List (ℕ × SimpleAverage) → ℕ
total f [] = 0
total f ((j, a) ∷ m) = f a + total f m

total-change :
    (f : SimpleAverage → ℕ) (g : SimpleAverage → SimpleAverage) (k v : ℕ)
    (m : List (ℕ × SimpleAverage))
    → f new_average ≡ 0
    → ((a : SimpleAverage) → f (g a) ≡ f a + v)
    → total f (change new_average g k m) ≡ total f m + v
unfolding change
total-change f g k v [] z h = omega (arith, z, h new_average)
total-change f g k v ((j, a) ∷ m) z h = elim (Bool-cases (j == k)) [
  | inl e ↦ rw e (omega (arith, h a))
  | inr e ↦ rw e (omega (arith, total-change f g k v m z h))
]

note-sum : (e : Noted) (a : SimpleAverage) → (note e a).sum ≡ a.sum + worth_of e
unfolding add_simple
note-sum (taken trade) a = refl
note-sum (asked minute) a = omega arith

note-count : (e : Noted) (a : SimpleAverage) → (note e a).count ≡ a.count + volume_of e
unfolding add_simple
note-count (taken trade) a = refl
note-count (asked minute) a = omega arith

pub total-sum : (h : List Noted) → total (λ a. a.sum) (grouped h) ≡ sum_over every worth_of h
total-sum [] = refl
total-sum (e ∷ h) =
    total-change (λ a. a.sum) (note e) (minute_of e) (worth_of e) (grouped h) refl (note-sum e)
    ∙ ap (λ n. n + worth_of e) (total-sum h)

pub total-count : (h : List Noted) → total (λ a. a.count) (grouped h) ≡ sum_over every volume_of h
total-count [] = refl
total-count (e ∷ h) =
    total-change (λ a. a.count) (note e) (minute_of e) (volume_of e) (grouped h) refl (note-count e)
    ∙ ap (λ n. n + volume_of e) (total-count h)

-- The entry of a minute holds what came in that minute.
pub at-sum :
    (k : ℕ) (h : List Noted)
    → (at new_average k (grouped h)).sum ≡ sum_over (λ j. j == k) worth_of h
unfolding at
at-sum k [] = refl
at-sum k (e ∷ h) = ground (
  arith,
  at-change new_average (note e) (minute_of e) k (grouped h),
  note-sum e (at new_average k (grouped h)),
  at-sum k h,
)

pub at-count :
    (k : ℕ) (h : List Noted)
    → (at new_average k (grouped h)).count ≡ sum_over (λ j. j == k) volume_of h
unfolding at
at-count k [] = refl
at-count k (e ∷ h) = ground (
  arith,
  at-change new_average (note e) (minute_of e) k (grouped h),
  note-count e (at new_average k (grouped h)),
  at-count k h,
)

pub prune_loop_lem :
    (threshold : ℕ) (m : List (ℕ × SimpleAverage)) (r q : ℕ)
    → prune_loop threshold m (total (λ a. a.sum) m + r) (total (λ a. a.count) m + q) ≡ (
      recent threshold m,
      total (λ a. a.sum) (recent threshold m) + r,
      total (λ a. a.count) (recent threshold m) + q,
    )
unfolding prune_loop
prune_loop_lem threshold [] r q = refl
prune_loop_lem threshold ((j, a) ∷ m) r q = elim (Bool-cases (ltb j threshold)) [
  | inl old ↦
      let e : a.sum + total (λ a. a.sum) m + r - a.sum ≡ total (λ a. a.sum) m + r = omega arith in
      let f : a.count + total (λ a. a.count) m + q - a.count ≡ total (λ a. a.count) m + q =
        omega arith in
      rw (old, e, f) (prune_loop_lem threshold m r q)
  | inr new ↦
      let kept = recent threshold m in
      let e : a.sum + total (λ a. a.sum) m + r ≡ total (λ a. a.sum) m + (a.sum + r) = omega arith in
      let f : a.count + total (λ a. a.count) m + q ≡ total (λ a. a.count) m + (a.count + q) =
        omega arith in
      let s : total (λ a. a.sum) kept + (a.sum + r) ≡ a.sum + total (λ a. a.sum) kept + r =
        omega arith in
      let c : total (λ a. a.count) kept + (a.count + q) ≡ a.count + total (λ a. a.count) kept + q =
        omega arith in
      let p = prune_loop_lem threshold m (a.sum + r) (a.count + q) ∙ (λ k. (kept, s k, c k)) in
      rw (new, e, f) (λ i. ((j, a) ∷ (p i).0, (p i).1, (p i).2))
]
