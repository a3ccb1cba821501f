-- ===== src/Recorder/Worker.antt =====
-- A queue and its worker: RealTime_Embedded_Systems/src/thread_safe_queue.cpp and queued_worker.ipp. The
-- producer, the thread that stops the worker and the worker take steps in any order. A step is what runs
-- while the mutex of the queue is held, or one access to the stop flag. A queue has one worker.
pub mod Sound
use university_collection.Prelude.{Bool, true, false, ◌≡◌, Option, none, some, List, [], ◌∷◌, ◌++◌}
use university_collection.Recorder.Trade.{TradeData}

-- Where the worker is: asleep in `wait`; about to test what it waits for; with an item that
-- `dequeueConditional` returned, or with `T()`; or past the end of `loop`, with the item that it took
-- last and did not work on.
pub data Place : Type 0 where
  asleep : Place
  waking : Place
  got : TradeData → Place
  got_default : Place
  finished : Option TradeData → Place

-- Where `stop` is: not called, past setting the flag, past `wakeConsumers`.
pub data Stopping : Type 0 where
  running : Stopping
  flagged : Stopping
  woken : Stopping

-- The queue, the flag, and the two threads; beside them all that was put into the queue and all that was
-- worked on, in order.
pub record System : Type 0 where
  pub queue : List TradeData
  pub stop_flag : Bool
  pub place : Place
  pub stopping : Stopping
  pub put : List TradeData
  pub worked : List TradeData

-- `start`
unfoldable pub start : System
start = record {
  queue = [];
  stop_flag = false;
  place = waking;
  stopping = running;
  put = [];
  worked = [];
}

-- `notify_one` and `notify_all`, for the one worker.
abbrev pub notify : Place → Place
notify asleep = waking
notify waking = waking
notify (got item) = got item
notify got_default = got_default
notify (finished last) = finished last

unfoldable pub enqueue : TradeData → System → System
enqueue item s = record s {
  queue = s.queue ++ (item ∷ []);
  put = s.put ++ (item ∷ []);
  place = notify s.place;
}

unfoldable pub wake_consumers : System → System
wake_consumers s = record s { place = notify s.place; stopping = woken }

-- The part of `dequeueConditional` under the lock, from the test on: it goes to sleep, or returns.
unfoldable pub dequeue_conditional : Bool → List TradeData → System → System
dequeue_conditional true queue s = record s { place = got_default }
dequeue_conditional false [] s = record s { place = asleep }
dequeue_conditional false (item ∷ rest) s = record s { queue = rest; place = got item }

-- The rest of a round of `loop`, for the item.
unfoldable pub finish_round : Bool → TradeData → System → System
finish_round true item s = record s { place = finished (some item) }
finish_round false item s = record s { place = waking; worked = s.worked ++ (item ∷ []) }

-- A step of one of the threads.
pub data Step : System → System → Type 0 where
  produce : {s : System} → (item : TradeData) → Step s (enqueue item s)
  set_flag :
      {s : System}
      → s.stopping ≡ running
      → Step s (record s { stop_flag = true; stopping = flagged })
  wake : {s : System} → s.stopping ≡ flagged → Step s (wake_consumers s)
  take : {s : System} → s.place ≡ waking → Step s (dequeue_conditional s.stop_flag s.queue s)
  work :
      {s : System}
      → (item : TradeData) → s.place ≡ got item
      → Step s (finish_round s.stop_flag item s)
  leave : {s : System} → s.place ≡ got_default → Step s (record s { place = finished none })

pub data Reach : System → Type 0 where
  begin : Reach start
  then_step : {s t : System} → Reach s → Step s t → Reach t
