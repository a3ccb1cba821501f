-- ===== src/Recorder/Timed.antt =====
-- A worker that works at exact minutes: RealTime_Embedded_Systems/src/timed_worker.cpp. The clock, the
-- worker's thread and the thread that starts and stops it take steps in any order. `stop` does not take
-- the mutex, so it runs between any two steps of the worker.
pub mod Punctual
pub mod Stop
use university_collection.Prelude.{ℕ, zero, suc, ◌+◌, ◌*◌, ◌≤◌, ◌≡◌}
use university_collection.Prelude.{Bool, true, false, not, ltb, if◌then◌else◌, List, [], ◌∷◌}
use university_collection.Recorder.Clock.{ms_in_min, minute_floor_ms}

-- Where the thread is, with its `timer_target`: at the start of a round of `timedLoop`; about to test the
-- stop flag of the inner loop, or the clock; past both tests, before it sleeps; asleep in `wait_until`;
-- about to test the flag after the inner loop; in `m_work`; past the end of `timedLoop`.
pub data Place : Type 0 where
  round : Place
  test_flag : ℕ → Place
  test_clock : ℕ → Place
  before_sleep : ℕ → Place
  asleep : ℕ → Place
  last_test : ℕ → Place
  at_work : ℕ → Place
  finished : Place

-- Where `stop` is: not called, past setting the flag, past `notify_all`.
pub data Stopping : Type 0 where
  idle : Stopping
  flagged : Stopping
  notified : Stopping

-- The worker, and what the clock shows in milliseconds. Beside them the targets of all work that is done,
-- the last first, and how often work was done with the flag set since the last start.
pub record TimedWorker : Type 0 where
  pub now : ℕ
  pub timer_minutes : ℕ
  pub stop_flag : Bool
  pub joinable : Bool
  pub place : Place
  pub stopping : Stopping
  pub done : List ℕ
  pub late : ℕ

-- Before the constructor calls `start`.
unfoldable pub unstarted : (now timer_minutes : ℕ) → TimedWorker
unstarted now timer_minutes = record {
  now = now;
  timer_minutes = timer_minutes;
  stop_flag = true;
  joinable = false;
  place = finished;
  stopping = idle;
  done = [];
  late = 0;
}

unfoldable pub start : TimedWorker → TimedWorker
start s =
    if not s.joinable
    then record s { stop_flag = false; joinable = true; place = round; late = 0 }
    else s

-- `timer_target` of a round that begins at `now`.
unfoldable pub timer_target : (now timer_minutes : ℕ) → ℕ
timer_target now timer_minutes = minute_floor_ms now + timer_minutes * ms_in_min

-- `wait_until` returns.
abbrev pub woken : Place → Place
woken round = round
woken (test_flag t) = test_flag t
woken (test_clock t) = test_clock t
woken (before_sleep t) = before_sleep t
woken (asleep t) = test_flag t
woken (last_test t) = last_test t
woken (at_work t) = at_work t
woken finished = finished

-- The first lines of `stop`: the flag, and `notify_all`.
unfoldable pub set_stop_flag : TimedWorker → TimedWorker
set_stop_flag s = record s { stop_flag = true; stopping = flagged }

unfoldable pub notify_all : TimedWorker → TimedWorker
notify_all s = record s { place = woken s.place; stopping = notified }

-- The rest of `stop`, when the thread has ended or was never started.
unfoldable pub join : TimedWorker → TimedWorker
join s = record s { joinable = false; stopping = idle }

-- A step of `timedLoop` from a place; a sleep ends when the clock shows the target.
unfoldable pub loop_from : Place → TimedWorker → TimedWorker
loop_from round s = record s { place = test_flag (timer_target s.now s.timer_minutes) }
loop_from (test_flag t) s = record s {
  place = if not s.stop_flag then test_clock t else last_test t;
}
loop_from (test_clock t) s = record s {
  place = if ltb s.now t then before_sleep t else last_test t;
}
loop_from (before_sleep t) s = record s { place = asleep t }
loop_from (asleep t) s = if ltb s.now t then s else record s { place = test_flag t }
loop_from (last_test t) s = record s { place = if s.stop_flag then finished else at_work t }
loop_from (at_work t) s = record s {
  place = round;
  done = t ∷ s.done;
  late = if s.stop_flag then suc s.late else s.late;
}
loop_from finished s = s

unfoldable pub loop_step : TimedWorker → TimedWorker
loop_step s = loop_from s.place s

-- `n` steps of the thread.
unfoldable pub loop_steps : ℕ → TimedWorker → TimedWorker
loop_steps zero s = s
loop_steps (suc n) s = loop_steps n (loop_step s)

-- A step of one of the threads, or of the clock, which does not go back.
pub data Step : TimedWorker → TimedWorker → Type 0 where
  call_start : {s : TimedWorker} → s.stopping ≡ idle → Step s (start s)
  call_stop : {s : TimedWorker} → s.stopping ≡ idle → Step s (set_stop_flag s)
  notify : {s : TimedWorker} → s.stopping ≡ flagged → Step s (notify_all s)
  thread_ended : {s : TimedWorker} → s.stopping ≡ notified → s.place ≡ finished → Step s (join s)
  loop : {s : TimedWorker} → Step s (loop_step s)
  wake_early : {s : TimedWorker} → Step s (record s { place = woken s.place })
  tick : {s : TimedWorker} → (later : ℕ) → s.now ≤ later → Step s (record s { now = later })

pub data Reach : (now timer_minutes : ℕ) → TimedWorker → Type 0 where
  begin : {now timer_minutes : ℕ} → Reach now timer_minutes (unstarted now timer_minutes)
  then_step :
      {now timer_minutes : ℕ} {s t : TimedWorker}
      → Reach now timer_minutes s
      → Step s t
      → Reach now timer_minutes t
