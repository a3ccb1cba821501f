-- ===== src/Recorder/Timed/Punctual.antt =====
-- What holds of the worker of RealTime_Embedded_Systems/src/timed_worker.cpp after any steps.
use university_collection.Prelude.{ℕ, ◌+◌, ◌*◌, ◌%◌, ◌≤◌, ◌≡◌, refl, arith}
use university_collection.Prelude.{Bool, true, false, not, ltb, if_elim, List, [], ◌∷◌}
use university_collection.Recorder.Clock.{ms_in_min, minute_floor_ms}
use university_collection.Recorder.Timed.{
  Place, round, test_flag, test_clock, before_sleep, asleep, last_test, at_work, finished,
  TimedWorker, unstarted, start, timer_target, woken, set_stop_flag, notify_all, join, loop_from,
  loop_step,
}
use university_collection.Recorder.Timed.{
  Step, call_start, call_stop, notify, thread_ended, loop, wake_early, tick, Reach, begin,
  then_step,
}

-- A target is an exact minute, and at least the worker's minutes after the last one of `done`.
abbrev Next : (minutes : ℕ) → List ℕ → ℕ → Type 0
Next minutes [] t = t % ms_in_min ≡ 0
Next minutes (u ∷ done) t = (t % ms_in_min ≡ 0) × (u + minutes * ms_in_min ≤ t)

abbrev Spaced : (minutes : ℕ) → List ℕ → Type 0
Spaced minutes [] = Unit
Spaced minutes (t ∷ done) = Next minutes done t × Spaced minutes done

-- The last target was reached.
abbrev Past : List ℕ → ℕ → Type 0
Past [] now = Unit
Past (t ∷ done) now = t ≤ now

-- The target of the round is the next one, and the thread works from the target on.
abbrev Placed : Place → (minutes : ℕ) (done : List ℕ) (stop_flag : Bool) (now late : ℕ) → Type 0
Placed round minutes done stop_flag now late = Unit
Placed (test_flag t) minutes done stop_flag now late = Next minutes done t
Placed (test_clock t) minutes done stop_flag now late = Next minutes done t
Placed (before_sleep t) minutes done stop_flag now late = Next minutes done t
Placed (asleep t) minutes done stop_flag now late = Next minutes done t
Placed (last_test t) minutes done stop_flag now late =
    Next minutes done t × (stop_flag ≡ false → t ≤ now)
Placed (at_work t) minutes done stop_flag now late = Next minutes done t × (t ≤ now) × (late ≡ 0)
Placed finished minutes done stop_flag now late = Unit

pub record Punctual (s : TimedWorker) : Type 0 where
  pub spaced : Spaced s.timer_minutes s.done
  pub past : Past s.done s.now
  pub placed : Placed s.place s.timer_minutes s.done s.stop_flag s.now s.late
  pub not_late : s.stop_flag ≡ false → s.late ≡ 0
  pub late_once : s.late ≤ 1

target_whole : (now minutes : ℕ) → timer_target now minutes % ms_in_min ≡ 0
unfolding timer_target minute_floor_ms
target_whole now minutes = omega arith

Next-whole : (minutes : ℕ) (done : List ℕ) (t : ℕ) → Next minutes done t → t % ms_in_min ≡ 0
Next-whole minutes [] t h = h
Next-whole minutes (u ∷ done) t h = h.0

target_spaced :
    (now minutes u : ℕ)
    → u % ms_in_min ≡ 0
    → u ≤ now
    → u + minutes * ms_in_min ≤ timer_target now minutes
unfolding timer_target minute_floor_ms
target_spaced now minutes u h p = omega (arith, h, p)

target-Next :
    (now minutes : ℕ) (done : List ℕ)
    → Spaced minutes done
    → Past done now
    → Next minutes done (timer_target now minutes)
target-Next now minutes [] h p = target_whole now minutes
target-Next now minutes (u ∷ done) h p =
    (target_whole now minutes, target_spaced now minutes u (Next-whole minutes done u h.0) p)

Past-later : (done : List ℕ) (now later : ℕ) → now ≤ later → Past done now → Past done later
Past-later [] now later h p = tt
Past-later (t ∷ done) now later h p = omega (arith, h, p)

Placed-woken :
    (p : Place) (minutes : ℕ) (done : List ℕ) (stop_flag : Bool) (now late : ℕ)
    → Placed p minutes done stop_flag now late
    → Placed (woken p) minutes done stop_flag now late
Placed-woken round minutes done stop_flag now late h = h
Placed-woken (test_flag t) minutes done stop_flag now late h = h
Placed-woken (test_clock t) minutes done stop_flag now late h = h
Placed-woken (before_sleep t) minutes done stop_flag now late h = h
Placed-woken (asleep t) minutes done stop_flag now late h = h
Placed-woken (last_test t) minutes done stop_flag now late h = h
Placed-woken (at_work t) minutes done stop_flag now late h = h
Placed-woken finished minutes done stop_flag now late h = h

Placed-later :
    (p : Place) (minutes : ℕ) (done : List ℕ) (stop_flag : Bool) (now late : ℕ) (later : ℕ)
    → now ≤ later
    → Placed p minutes done stop_flag now late
    → Placed p minutes done stop_flag later late
Placed-later round minutes done stop_flag now late later l h = h
Placed-later (test_flag t) minutes done stop_flag now late later l h = h
Placed-later (test_clock t) minutes done stop_flag now late later l h = h
Placed-later (before_sleep t) minutes done stop_flag now late later l h = h
Placed-later (asleep t) minutes done stop_flag now late later l h = h
Placed-later (last_test t) minutes done stop_flag now late later l h =
    (h.0, λ e. let r : t ≤ now = h.1 e in omega (arith, l, r))
Placed-later (at_work t) minutes done stop_flag now late later l h =
    (h.0, omega (arith, l, h.1), h.2)
Placed-later finished minutes done stop_flag now late later l h = h

Placed-set :
    (p : Place) (minutes : ℕ) (done : List ℕ) (stop_flag : Bool) (now late : ℕ)
    → Placed p minutes done stop_flag now late
    → Placed p minutes done true now late
Placed-set round minutes done stop_flag now late h = h
Placed-set (test_flag t) minutes done stop_flag now late h = h
Placed-set (test_clock t) minutes done stop_flag now late h = h
Placed-set (before_sleep t) minutes done stop_flag now late h = h
Placed-set (asleep t) minutes done stop_flag now late h = h
Placed-set (last_test t) minutes done stop_flag now late h = (h.0, λ e. absurd (cc))
Placed-set (at_work t) minutes done stop_flag now late h = h
Placed-set finished minutes done stop_flag now late h = h

-- Where only the place changes.
moved :
    (p : Place) (s : TimedWorker)
    → Placed p s.timer_minutes s.done s.stop_flag s.now s.late
    → Punctual s
    → Punctual (record s { place = p })
moved p s e h = record {
  spaced = h.spaced;
  past = h.past;
  placed = e;
  not_late = h.not_late;
  late_once = h.late_once;
}

-- The work of a round is done.
worked :
    (t : ℕ) (s : TimedWorker)
    → Placed (at_work t) s.timer_minutes s.done s.stop_flag s.now s.late
    → Punctual s
    → Punctual (loop_from (at_work t) s)
unfolding loop_from
worked t s e h = record {
  spaced = (e.0, h.spaced);
  past = e.1;
  placed = tt;
  not_late = λ k. rw k e.2;
  late_once = ground (arith, e.2);
}

loop_from-Punctual :
    (p : Place) (s : TimedWorker)
    → Placed p s.timer_minutes s.done s.stop_flag s.now s.late
    → Punctual s
    → Punctual (loop_from p s)
unfolding loop_from
loop_from-Punctual round s e h =
    moved (test_flag (timer_target s.now s.timer_minutes)) s
      (target-Next s.now s.timer_minutes s.done h.spaced h.past) h
loop_from-Punctual (test_flag t) s e h =
    if_elim (λ p. Punctual (record s { place = p })) (not s.stop_flag) _ _
      (λ k. moved (test_clock t) s e h)
      (λ k. moved (last_test t) s (e, λ n. absurd (ground (arith, k, n))) h)
loop_from-Punctual (test_clock t) s e h =
    if_elim (λ p. Punctual (record s { place = p })) (ltb s.now t) _ _
      (λ k. moved (before_sleep t) s e h) (λ k. moved (last_test t) s (e, λ n. ground (arith, k)) h)
loop_from-Punctual (before_sleep t) s e h = moved (asleep t) s e h
loop_from-Punctual (asleep t) s e h =
    if_elim Punctual (ltb s.now t) _ _ (λ k. h) (λ k. moved (test_flag t) s e h)
loop_from-Punctual (last_test t) s e h =
    if_elim (λ p. Punctual (record s { place = p })) s.stop_flag _ _ (λ k. moved finished s tt h)
      (λ k. moved (at_work t) s (e.0, e.1 k, h.not_late k) h)
loop_from-Punctual (at_work t) s e h = worked t s e h
loop_from-Punctual finished s e h = h

start-Punctual : (s : TimedWorker) → Punctual s → Punctual (start s)
unfolding start
start-Punctual s h =
    if_elim Punctual (not s.joinable) _ _
      (λ k. record {
        spaced = h.spaced;
        past = h.past;
        placed = tt;
        not_late = λ e. refl;
        late_once = omega arith;
      })
      (λ k. h)

Step-Punctual : {s t : TimedWorker} → Step s t → Punctual s → Punctual t
unfolding set_stop_flag notify_all join loop_step
Step-Punctual {s} (call_start e) h = start-Punctual s h
Step-Punctual {s} (call_stop e) h = record {
  spaced = h.spaced;
  past = h.past;
  placed = Placed-set s.place s.timer_minutes s.done s.stop_flag s.now s.late h.placed;
  not_late = λ e. absurd (cc);
  late_once = h.late_once;
}
Step-Punctual {s} (notify e) h = record {
  spaced = h.spaced;
  past = h.past;
  placed = Placed-woken s.place s.timer_minutes s.done s.stop_flag s.now s.late h.placed;
  not_late = h.not_late;
  late_once = h.late_once;
}
Step-Punctual {s} (thread_ended e f) h = record {
  spaced = h.spaced;
  past = h.past;
  placed = h.placed;
  not_late = h.not_late;
  late_once = h.late_once;
}
Step-Punctual {s} loop h = loop_from-Punctual s.place s h.placed h
Step-Punctual {s} wake_early h =
    moved (woken s.place) s
      (Placed-woken s.place s.timer_minutes s.done s.stop_flag s.now s.late h.placed) h
Step-Punctual {s} (tick later l) h = record {
  spaced = h.spaced;
  past = Past-later s.done s.now later l h.past;
  placed = Placed-later s.place s.timer_minutes s.done s.stop_flag s.now s.late later l h.placed;
  not_late = h.not_late;
  late_once = h.late_once;
}

unstarted-Punctual : (now minutes : ℕ) → Punctual (unstarted now minutes)
unfolding unstarted
unstarted-Punctual now minutes = record {
  spaced = tt;
  past = tt;
  placed = tt;
  not_late = λ e. refl;
  late_once = omega arith;
}

-- After any steps of the clock, the worker and the thread that starts and stops it, where the clock does
-- not go back: each target at which work was done is an exact minute, at least `timer_minutes` after the
-- one before it, and work is only under way when the clock shows its target or later. Since the last start
-- at most one piece of work was ended with the stop flag set.
pub Reach-Punctual : {now minutes : ℕ} {s : TimedWorker} → Reach now minutes s → Punctual s
Reach-Punctual {now} {minutes} begin = unstarted-Punctual now minutes
Reach-Punctual (then_step r m) = Step-Punctual m (Reach-Punctual r)
