-- ===== src/Recorder/Tests/Timers.antt =====
-- The theorems about the timed workers at concrete inputs.
use university_collection.Prelude.{ℕ, suc, [], ◌∷◌, ◌≡◌, refl, arith}
use university_collection.Recorder.Timed.{
  TimedWorker, asleep, finished, unstarted, start, timer_target, set_stop_flag, notify_all,
  loop_step, loop_from, loop_steps, Reach, begin, then_step, call_start, tick,
}
use university_collection.Recorder.Clock.{minute_floor_ms}
use university_collection.Recorder.Timed.Punctual.{Punctual, Reach-Punctual}
use university_collection.Recorder.Timed.Stop.{
  about_to_sleep, loop_steps-Reach, stop_prompt, stop_missed,
}

-- A worker that was started at half past a minute and works in each minute, at rest until the clock shows
-- the next minute.
abbrev sleeping : TimedWorker
sleeping = loop_steps 4 (start (unstarted 90000 1))

-- It has done its work once.
abbrev worked_once : TimedWorker
worked_once = loop_steps 5 (record sleeping { now = 120005 })

sleeping_place : sleeping.place ≡ asleep 120000
unfolding loop_steps loop_step loop_from start unstarted timer_target minute_floor_ms
sleeping_place = refl

worked_once_done : worked_once.done ≡ 120000 ∷ []
unfolding loop_steps loop_step loop_from start unstarted timer_target minute_floor_ms
worked_once_done = refl

worked_once-Reach : Reach 90000 1 worked_once
unfolding loop_steps loop_step loop_from start unstarted timer_target minute_floor_ms
worked_once-Reach =
    loop_steps-Reach 5 (
      then_step (loop_steps-Reach 4 (then_step begin (call_start refl)))
        (tick 120005 (omega arith)))

Reach-Punctual_example : Punctual worked_once
Reach-Punctual_example = Reach-Punctual worked_once-Reach

stop_prompt_example : (loop_steps 5 (notify_all (set_stop_flag sleeping))).place ≡ finished
unfolding loop_steps loop_step loop_from start unstarted timer_target minute_floor_ms
stop_prompt_example = stop_prompt sleeping (λ h. h)

stop_missed_example :
    Reach 90000 1 (about_to_sleep 90000 1)
    × ((n : ℕ)
        → (loop_steps (suc (suc n)) (notify_all (set_stop_flag (about_to_sleep 90000 1)))).place
          ≡ asleep (timer_target 90000 1))
stop_missed_example = stop_missed 90000 1 (omega arith)
