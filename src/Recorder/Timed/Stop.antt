-- ===== src/Recorder/Timed/Stop.antt =====
-- How `stop` of RealTime_Embedded_Systems/src/timed_worker.cpp ends.
use university_collection.Prelude.{ℕ, zero, suc, ◌≤◌, ◌<◌, ◌≡◌, refl, arith}
use university_collection.Prelude.{true, false, ltb}
use university_collection.Recorder.Clock.{minute_floor_ms}
use university_collection.Recorder.Timed.{
  Place, round, test_flag, test_clock, before_sleep, asleep, last_test, at_work, finished,
  TimedWorker, unstarted, start, timer_target, woken, set_stop_flag, notify_all, loop_from,
  loop_step, loop_steps,
}
use university_collection.Recorder.Timed.{call_start, loop, Reach, begin, then_step}

-- The thread has tested the flag, and is to sleep but does not yet.
abbrev Misses : Place → (now : ℕ) → Type 0
Misses round now = ⊥
Misses (test_flag t) now = ⊥
Misses (test_clock t) now = now < t
Misses (before_sleep t) now = now < t
Misses (asleep t) now = ⊥
Misses (last_test t) now = ⊥
Misses (at_work t) now = ⊥
Misses finished now = ⊥

-- What the flag, the clock and the place decide.
ends_from :
    (p : Place) (s : TimedWorker)
    → s.stop_flag ≡ true
    → ¬ Misses p s.now
    → (loop_steps 5 (record s { place = woken p })).place ≡ finished
unfolding loop_steps loop_step loop_from
ends_from round s e h = rw e refl
ends_from (test_flag t) s e h = rw e refl
ends_from (test_clock t) s e h =
    let past : ltb s.now t ≡ false = ground (arith, h) in rw (past, e) refl
ends_from (before_sleep t) s e h =
    let past : ltb s.now t ≡ false = ground (arith, h) in rw (past, e) refl
ends_from (asleep t) s e h = rw e refl
ends_from (last_test t) s e h = rw e refl
ends_from (at_work t) s e h = rw e refl
ends_from finished s e h = refl

-- If the worker has not just tested its flag before a sleep when `stop` sets the flag and notifies, its
-- thread ends within five steps, whatever the clock shows.
pub stop_prompt :
    (s : TimedWorker)
    → ¬ Misses s.place s.now
    → (loop_steps 5 (notify_all (set_stop_flag s))).place ≡ finished
unfolding notify_all set_stop_flag
stop_prompt s h = ends_from s.place (notify_all (set_stop_flag s)) refl h

sleeps_on :
    (n t : ℕ) (s : TimedWorker)
    → s.now < t
    → (loop_steps n (record s { place = asleep t })).place ≡ asleep t
unfolding loop_steps loop_step loop_from
sleeps_on zero t s h = refl
sleeps_on (suc n) t s h =
    let early : ltb s.now t ≡ true = ground (arith, h) in rw (loop_steps, early) (sleeps_on n t s h)

missed_from :
    (n t : ℕ) (s : TimedWorker)
    → s.now < t
    → (loop_steps (suc (suc n)) (record s { place = test_clock t })).place ≡ asleep t
unfolding loop_steps loop_step loop_from
missed_from n t s h =
    let early : ltb s.now t ≡ true = ground (arith, h) in rw (loop_steps, early) (sleeps_on n t s h)

target_later : (now minutes : ℕ) → 1 ≤ minutes → now < timer_target now minutes
unfolding timer_target minute_floor_ms
target_later now minutes h = omega (arith, h)

-- The worker after its constructor, when it has tested the flag once.
abbrev pub about_to_sleep : (now timer_minutes : ℕ) → TimedWorker
about_to_sleep now timer_minutes = loop_steps 2 (start (unstarted now timer_minutes))

pub loop_steps-Reach :
    {now minutes : ℕ} (n : ℕ) {s : TimedWorker}
    → Reach now minutes s
    → Reach now minutes (loop_steps n s)
unfolding loop_steps
loop_steps-Reach zero r = r
loop_steps-Reach (suc n) {s = s} r = loop_steps-Reach n {s = loop_step s} (then_step r loop)

about_to_sleep-Reach : (now minutes : ℕ) → Reach now minutes (about_to_sleep now minutes)
unfolding unstarted
about_to_sleep-Reach now minutes = loop_steps-Reach 2 (then_step begin (call_start refl))

-- The worker can be in a state where `stop` is too early: it sets the flag and notifies when the thread
-- has tested the flag and does not sleep yet. The thread then sleeps on, if nothing else wakes it, for
-- as many steps as it is given before the clock shows its target, and `stop` waits for it.
pub stop_missed :
    (now minutes : ℕ)
    → 1 ≤ minutes
    → Reach now minutes (about_to_sleep now minutes)
      × ((n : ℕ)
          → (loop_steps
              (suc (suc n))
              (notify_all (set_stop_flag (about_to_sleep now minutes)))).place
            ≡ asleep (timer_target now minutes))
unfolding loop_steps loop_step loop_from notify_all set_stop_flag unstarted start
stop_missed now minutes h = (
  about_to_sleep-Reach now minutes,
  λ n.
      missed_from n (timer_target now minutes)
        (notify_all (set_stop_flag (about_to_sleep now minutes))) (target_later now minutes h),
)
