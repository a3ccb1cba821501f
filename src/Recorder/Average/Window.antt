-- ===== src/Recorder/Average/Window.antt =====
-- When the moving average of RealTime_Embedded_Systems/src/finnhub_data.cpp is that of its window.
use university_collection.Prelude.{ℕ, ◌+◌, ◌*◌, ◌≤◌, ◌<◌, ◌≡◌, refl, sym, ap, ◌∙◌, inl, inr}
use university_collection.Prelude.{
  not, ◌&&◌, Bool, true, false, ltb, ◌==◌, if◌then◌else◌, Bool-cases, List, [], ◌∷◌, arith,
}
use university_collection.Recorder.Clock.{ms_in_min, minute_floor_ms}
use university_collection.Recorder.Minutes.{change, size, present, size-present}
use university_collection.Recorder.Average.{SimpleAverage, new_average, min_acceptable}
use university_collection.Recorder.Average.{get_static}
use university_collection.Recorder.Average.History.{
  Noted, asked, minute_of, worth_of, volume_of, note, grouped, sum_over, average_of, since,
}
use university_collection.Recorder.Average.Refine.{tidy, besides, get_static-average_of}

present-change :
    (f : SimpleAverage → SimpleAverage) (k j : ℕ) (m : List (ℕ × SimpleAverage))
    → present j (change new_average f k m) ≡ (if k == j then true else present j m)
unfolding change
present-change f k j [] = refl
present-change f k j ((i, a) ∷ m) = ground (arith, present-change f k j m)

-- If all the entries are from a threshold on, so is the whole history.
since_all :
    (threshold : ℕ) (h : List Noted)
    → ((j : ℕ) → present j (grouped h) ≡ true → threshold ≤ j)
    → since threshold h ≡ h
since_all threshold [] all = refl
since_all threshold (e ∷ h) all =
    let law = λ (j : ℕ). present-change (note e) (minute_of e) j (grouped h) in
    let here : threshold ≤ minute_of e = all (minute_of e) (ground (arith, law (minute_of e))) in
    let keep : ltb (minute_of e) threshold ≡ false = ground (arith, here) in
    rw keep (ap (λ l. e ∷ l) (since_all threshold h (λ j p. all j (ground (arith, law j, p)))))

-- There is an entry for each of the minutes to store.
abbrev pub EachMinute : (threshold minutes : ℕ) → List Noted → Type 0
EachMinute threshold minutes h =
    (i : ℕ) → i < minutes → present (threshold + i * ms_in_min) (grouped h) ≡ true

tidy-EachMinute :
    (threshold minutes : ℕ) (h : List Noted)
    → EachMinute threshold minutes h
    → tidy threshold minutes h ≡ since threshold h
tidy-EachMinute threshold minutes h each = elim (Bool-cases (ltb minutes (size (grouped h)))) [
  | inl more ↦ rw more refl
  | inr few ↦ rw few (
      sym (
        since_all threshold h (λ j p. elim (Bool-cases (ltb j threshold)) [
          | inl old ↦ absurd (
              let lots =
                size-present minutes threshold j (grouped h) (ground (arith, old)) p each in
              ground (arith, lots, few))
          | inr new ↦ ground (arith, new)
        ])))
]

-- The completed minutes of the window.
abbrev pub in_window : (threshold current minute : ℕ) → Bool
in_window threshold current minute = not (ltb minute threshold) && not (minute == current)

sum_over-since-besides :
    (f : Noted → ℕ) (threshold current : ℕ) (h : List Noted)
    → sum_over (besides current) f (since threshold h) ≡ sum_over (in_window threshold current) f h
sum_over-since-besides f threshold current [] = refl
sum_over-since-besides f threshold current (e ∷ h) =
    ground (arith, sum_over-since-besides f threshold current h)

-- If there is an entry for each of the minutes to store, as after a call of `getStatic` in each of them,
-- then the sum and the volume that `getStatic` gives are those of the trades of the window: all that
-- were taken in a minute that is not before the window and is not the current one.
pub get_static-EachMinute :
    (now minutes : ℕ) (h : List Noted)
    → 0 < minutes
    → EachMinute (min_acceptable now minutes) minutes (asked (minute_floor_ms now) ∷ h)
    → ((get_static now (average_of minutes h)).0.sum
        ≡ sum_over (in_window (min_acceptable now minutes) (minute_floor_ms now)) worth_of h)
      × ((get_static now (average_of minutes h)).0.volume
          ≡ sum_over (in_window (min_acceptable now minutes) (minute_floor_ms now)) volume_of h)
get_static-EachMinute now minutes h pos each =
    let k = minute_floor_ms now in
    let threshold = min_acceptable now minutes in
    let (state, s, v) = get_static-average_of now minutes h pos in
    let e = tidy-EachMinute threshold minutes (asked k ∷ h) each in
    (
      s
          ∙ ap (sum_over (besides k) worth_of) e
          ∙ sum_over-since-besides worth_of threshold k (asked k ∷ h)
          ∙ ground arith,
      v
          ∙ ap (sum_over (besides k) volume_of) e
          ∙ sum_over-since-besides volume_of threshold k (asked k ∷ h)
          ∙ ground arith,
    )
