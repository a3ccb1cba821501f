-- ===== src/Recorder/Average/Refine.antt =====
-- Each operation of the moving average of RealTime_Embedded_Systems/src/finnhub_data.cpp against the
-- history that it leaves.
use university_collection.Prelude.{ℕ, ◌+◌, ◌≤◌, ◌<◌, ◌≡◌, refl, ap, ◌∙◌, inl, inr}
use university_collection.Prelude.{
  not, Bool, ltb, ◌==◌, if◌then◌else◌, Bool-cases, List, [], ◌∷◌, arith,
}
use university_collection.Recorder.Clock.{minute_floor_ms}
use university_collection.Recorder.Trade.{TradeData}
use university_collection.Recorder.Minutes.{size}
use university_collection.Recorder.Average.{MovingAverage, min_acceptable}
use university_collection.Recorder.Average.{prune_loop, prune, prune_excess, add_trade, get_static}
use university_collection.Recorder.Average.History.{
  Noted, taken, asked, worth_of, volume_of, grouped, sum_over, every, average_of, since, total,
  recent-grouped, total-sum, total-count, at-sum, at-count, prune_loop_lem,
}

-- The history after a pruning.
abbrev pub tidy : (threshold minutes : ℕ) → List Noted → List Noted
tidy threshold minutes h = if ltb minutes (size (grouped h)) then since threshold h else h

prune-average_of :
    (threshold minutes : ℕ) (h : List Noted)
    → prune threshold (average_of minutes h) ≡ average_of minutes (since threshold h)
unfolding prune
prune-average_of threshold minutes h =
    let s : sum_over every worth_of h ≡ total (λ a. a.sum) (grouped h) + 0 =
      omega (arith, total-sum h) in
    let c : sum_over every volume_of h ≡ total (λ a. a.count) (grouped h) + 0 =
      omega (arith, total-count h) in
    let g = since threshold h in
    let e = recent-grouped threshold h in
    let s' : total (λ a. a.sum) (grouped g) + 0 ≡ sum_over every worth_of g =
      omega (arith, total-sum g) in
    let c' : total (λ a. a.count) (grouped g) + 0 ≡ sum_over every volume_of g =
      omega (arith, total-count g) in
    let p =
      (λ i. prune_loop threshold (grouped h) (s i) (c i))
      ∙ prune_loop_lem threshold (grouped h) 0 0
      ∙ (λ i. (e i, total (λ a. a.sum) (e i) + 0, total (λ a. a.count) (e i) + 0))
      ∙ (λ i. (grouped g, s' i, c' i)) in
    λ i. record {
      per_min_averages = (p i).0;
      minutes_to_store = minutes;
      sum = (p i).1;
      count = (p i).2;
    }

prune_excess-average_of :
    (threshold minutes : ℕ) (h : List Noted)
    → prune_excess threshold (average_of minutes h) ≡ average_of minutes (tidy threshold minutes h)
unfolding prune_excess
prune_excess-average_of threshold minutes h = elim (Bool-cases (ltb minutes (size (grouped h)))) [
  | inl e ↦ rw e (prune-average_of threshold minutes h)
  | inr e ↦ rw e refl
]

-- `addTrade` keeps what the average is of a history: it adds the trade, unless it is before the minutes
-- to store, and drops what is before them where there are more minutes than there should be.
pub add_trade-average_of :
    (now minutes : ℕ) (trade : TradeData) (h : List Noted)
    → add_trade now trade (average_of minutes h)
      ≡ average_of minutes (
          if ltb trade.timestamp (min_acceptable now minutes)
          then h
          else tidy (min_acceptable now minutes) minutes (taken trade ∷ h))
unfolding add_trade
add_trade-average_of now minutes trade h =
    elim (Bool-cases (ltb trade.timestamp (min_acceptable now minutes))) [
      | inl old ↦ rw old refl
      | inr new ↦
          rw new (prune_excess-average_of (min_acceptable now minutes) minutes (taken trade ∷ h))
    ]

sum_over-split :
    (f : Noted → ℕ) (k : ℕ) (h : List Noted)
    → sum_over every f h ≡ sum_over (λ j. j == k) f h + sum_over (λ j. not (j == k)) f h
sum_over-split f k [] = refl
sum_over-split f k (e ∷ h) = ground (arith, sum_over-split f k h)

-- Dropping what is before a threshold leaves the sum of a later minute.
sum_over-since :
    (f : Noted → ℕ) (k threshold : ℕ) (h : List Noted)
    → threshold ≤ k
    → sum_over (λ j. j == k) f (since threshold h) ≡ sum_over (λ j. j == k) f h
sum_over-since f k threshold [] le = refl
sum_over-since f k threshold (e ∷ h) le = ground (arith, le, sum_over-since f k threshold h le)

sum_over-tidy :
    (f : Noted → ℕ) (k threshold minutes : ℕ) (h : List Noted)
    → threshold ≤ k
    → sum_over (λ j. j == k) f (tidy threshold minutes h) ≡ sum_over (λ j. j == k) f h
sum_over-tidy f k threshold minutes h le = elim (Bool-cases (ltb minutes (size (grouped h)))) [
  | inl e ↦ rw e (sum_over-since f k threshold h le)
  | inr e ↦ rw e refl
]

min_acceptable-le :
    (now minutes : ℕ) → 0 < minutes → min_acceptable now minutes ≤ minute_floor_ms now
unfolding min_acceptable minute_floor_ms
min_acceptable-le now minutes pos = omega (arith, pos)

-- The history that `getStatic` leaves.
abbrev asked_at : (now minutes : ℕ) → List Noted → List Noted
asked_at now minutes h = tidy (min_acceptable now minutes) minutes (asked (minute_floor_ms now) ∷ h)

abbrev pub besides : ℕ → ℕ → Bool
besides current minute = not (minute == current)

-- `getStatic` keeps what the average is of a history: it notes the minute, and drops what is before the
-- minutes to store only where there are more minutes than there should be. Its sum and its volume are
-- those of all trades that are left, except those of the current minute.
pub get_static-average_of :
    (now minutes : ℕ) (h : List Noted)
    → 0 < minutes
    → ((get_static now (average_of minutes h)).1 ≡ average_of minutes (asked_at now minutes h))
      × ((get_static now (average_of minutes h)).0.sum
          ≡ sum_over (besides (minute_floor_ms now)) worth_of (asked_at now minutes h))
      × ((get_static now (average_of minutes h)).0.volume
          ≡ sum_over (besides (minute_floor_ms now)) volume_of (asked_at now minutes h))
unfolding get_static
get_static-average_of now minutes h pos =
    let k = minute_floor_ms now in
    let g = asked k ∷ h in
    let le = min_acceptable-le now minutes pos in
    let threshold = min_acceptable now minutes in
    let zs : sum_over every worth_of h ≡ sum_over every worth_of g = omega arith in
    let zc : sum_over every volume_of h ≡ sum_over every volume_of g = omega arith in
    let opened : ℕ → ℕ → MovingAverage = λ (s : ℕ) (c : ℕ). record {
      per_min_averages = grouped g;
      minutes_to_store = minutes;
      sum = s;
      count = c;
    } in
    let n =
      (λ i. prune_excess threshold (opened (zs i) (zc i)))
      ∙ prune_excess-average_of threshold minutes g in
    (
      n,
      omega (
        arith,
        ap (λ m. m.sum) n,
        at-sum k g,
        sum_over-tidy worth_of k threshold minutes g le,
        sum_over-split worth_of k (tidy threshold minutes g),
      ),
      omega (
        arith,
        ap (λ m. m.count) n,
        at-count k g,
        sum_over-tidy volume_of k threshold minutes g le,
        sum_over-split volume_of k (tidy threshold minutes g),
      ),
    )
