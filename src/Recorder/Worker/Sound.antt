-- ===== src/Recorder/Worker/Sound.antt =====
-- What holds of the queue and the worker of RealTime_Embedded_Systems/src/thread_safe_queue.cpp and
-- queued_worker.ipp after any steps.
use university_collection.Prelude.{
  Bool, true, false, ◌≡◌, ◌≢◌, refl, sym, ap, ◌∙◌, subst, none, some, List, [], ◌∷◌, ◌++◌,
}
use mathlib.Core.List.{append_assoc}
use university_collection.Recorder.Trade.{TradeData}
use university_collection.Recorder.Worker.{
  Place, asleep, waking, got, got_default, finished, Stopping, running, flagged, woken, System,
  start, notify, enqueue, wake_consumers, dequeue_conditional, finish_round,
}
use university_collection.Recorder.Worker.{
  Step, produce, set_flag, wake, take, work, leave, Reach, begin, then_step,
}

-- The item that the worker holds.
abbrev held : Place → List TradeData
held asleep = []
held waking = []
held (got item) = item ∷ []
held got_default = []
held (finished none) = []
held (finished (some item)) = item ∷ []

-- A worker that sleeps has nothing to do, and will be woken to stop.
abbrev Rests : Place → List TradeData → Stopping → Type 0
Rests asleep queue stopping = (queue ≡ []) × (stopping ≢ woken)
Rests waking queue stopping = Unit
Rests (got item) queue stopping = Unit
Rests got_default queue stopping = Unit
Rests (finished last) queue stopping = Unit

-- A worker that holds `T()` or is past its loop was stopped.
abbrev Stopped : Place → Bool → Type 0
Stopped asleep flag = Unit
Stopped waking flag = Unit
Stopped (got item) flag = Unit
Stopped got_default flag = flag ≡ true
Stopped (finished last) flag = flag ≡ true

abbrev Flagged : Stopping → Bool → Type 0
Flagged running flag = flag ≡ false
Flagged flagged flag = flag ≡ true
Flagged woken flag = flag ≡ true

pub record Sound (s : System) : Type 0 where
  pub in_order : s.put ≡ s.worked ++ (held s.place ++ s.queue)
  pub rests : Rests s.place s.queue s.stopping
  pub stopped : Stopped s.place s.stop_flag
  pub flag : Flagged s.stopping s.stop_flag

held-notify : (p : Place) → held (notify p) ≡ held p
held-notify asleep = refl
held-notify waking = refl
held-notify (got item) = refl
held-notify got_default = refl
held-notify (finished none) = refl
held-notify (finished (some item)) = refl

notify-Rests : (p : Place) (queue : List TradeData) (t : Stopping) → Rests (notify p) queue t
notify-Rests asleep queue t = tt
notify-Rests waking queue t = tt
notify-Rests (got item) queue t = tt
notify-Rests got_default queue t = tt
notify-Rests (finished last) queue t = tt

notify-Stopped : (p : Place) (flag : Bool) → Stopped p flag → Stopped (notify p) flag
notify-Stopped asleep flag h = tt
notify-Stopped waking flag h = tt
notify-Stopped (got item) flag h = tt
notify-Stopped got_default flag h = h
notify-Stopped (finished last) flag h = h

set-Stopped : (p : Place) → Stopped p true
set-Stopped asleep = tt
set-Stopped waking = tt
set-Stopped (got item) = tt
set-Stopped got_default = refl
set-Stopped (finished last) = refl

Rests-flagged :
    (p : Place) (queue : List TradeData) (t : Stopping) → Rests p queue t → Rests p queue flagged
Rests-flagged asleep queue t h = (h.0, λ e. cc)
Rests-flagged waking queue t h = tt
Rests-flagged (got item) queue t h = tt
Rests-flagged got_default queue t h = tt
Rests-flagged (finished last) queue t h = tt

enqueue-Sound : (item : TradeData) (s : System) → Sound s → Sound (enqueue item s)
unfolding enqueue
enqueue-Sound item s h = record {
  in_order =
      ap (λ l. l ++ (item ∷ [])) h.in_order
      ∙ append_assoc s.worked (held s.place ++ s.queue) (item ∷ [])
      ∙ ap (λ l. s.worked ++ l)
          (append_assoc (held s.place) s.queue (item ∷ [])
            ∙ ap (λ l. l ++ (s.queue ++ (item ∷ []))) (sym (held-notify s.place)));
  rests = notify-Rests s.place _ s.stopping;
  stopped = notify-Stopped s.place s.stop_flag h.stopped;
  flag = h.flag;
}

-- Where the worker holds nothing, all is worked on or in the queue.
empty_handed :
    (s : System) (p : Place) → s.place ≡ p → held p ≡ [] → Sound s → s.put ≡ s.worked ++ s.queue
empty_handed s p e n h = h.in_order ∙ ap (λ l. s.worked ++ (l ++ s.queue)) (ap held e ∙ n)

unset-woken : (t : Stopping) (flag : Bool) → Flagged t flag → flag ≡ false → t ≢ woken
unset-woken running flag h e k = cc
unset-woken flagged flag h e k = cc
unset-woken woken flag h e k = cc

dequeue-Sound :
    (flag : Bool) (queue : List TradeData) (s : System)
    → s.stop_flag ≡ flag
    → s.queue ≡ queue
    → s.place ≡ waking
    → Sound s
    → Sound (dequeue_conditional flag queue s)
unfolding dequeue_conditional
dequeue-Sound true queue s f q e h = record {
  in_order = empty_handed s waking e refl h;
  rests = tt;
  stopped = f;
  flag = h.flag;
}
dequeue-Sound false [] s f q e h = record {
  in_order = empty_handed s waking e refl h;
  rests = (q, unset-woken s.stopping s.stop_flag h.flag f);
  stopped = tt;
  flag = h.flag;
}
dequeue-Sound false (item ∷ rest) s f q e h = record {
  in_order = empty_handed s waking e refl h ∙ ap (λ l. s.worked ++ l) q;
  rests = tt;
  stopped = tt;
  flag = h.flag;
}

finish-Sound :
    (flag : Bool) (item : TradeData) (s : System)
    → s.stop_flag ≡ flag
    → s.place ≡ got item
    → Sound s
    → Sound (finish_round flag item s)
unfolding finish_round
finish-Sound true item s f e h = record {
  in_order = h.in_order ∙ ap (λ p. s.worked ++ (held p ++ s.queue)) e;
  rests = tt;
  stopped = f;
  flag = h.flag;
}
finish-Sound false item s f e h = record {
  in_order =
      h.in_order
      ∙ ap (λ p. s.worked ++ (held p ++ s.queue)) e
      ∙ sym (append_assoc s.worked (item ∷ []) s.queue);
  rests = tt;
  stopped = tt;
  flag = h.flag;
}

Step-Sound : {s t : System} → Step s t → Sound s → Sound t
unfolding wake_consumers
Step-Sound {s} (produce item) h = enqueue-Sound item s h
Step-Sound {s} (set_flag e) h = record {
  in_order = h.in_order;
  rests = Rests-flagged s.place s.queue s.stopping h.rests;
  stopped = set-Stopped s.place;
  flag = refl;
}
Step-Sound {s} (wake e) h = record {
  in_order = h.in_order ∙ ap (λ l. s.worked ++ (l ++ s.queue)) (sym (held-notify s.place));
  rests = notify-Rests s.place s.queue woken;
  stopped = notify-Stopped s.place s.stop_flag h.stopped;
  flag = subst (λ t. Flagged t s.stop_flag) e h.flag;
}
Step-Sound {s} (take e) h = dequeue-Sound s.stop_flag s.queue s refl refl e h
Step-Sound {s} (work item e) h = finish-Sound s.stop_flag item s refl e h
Step-Sound {s} (leave e) h = record {
  in_order = empty_handed s got_default e refl h;
  rests = tt;
  stopped = subst (λ p. Stopped p s.stop_flag) e h.stopped;
  flag = h.flag;
}

start-Sound : Sound start
unfolding start
start-Sound = record { in_order = refl; rests = tt; stopped = tt; flag = refl }

-- After any steps of the producer, the worker and the thread that stops it: what was put into the queue
-- is what was worked on, then the item that the worker holds, then the queue, in this order, so nothing is
-- lost, doubled or overtaken. A worker that sleeps has an empty queue, and a `stop` that was called has
-- still to call `wakeConsumers`, which wakes it. The worker leaves its loop only after the flag is set.
pub Reach-Sound : {s : System} → Reach s → Sound s
Reach-Sound begin = start-Sound
Reach-Sound (then_step r m) = Step-Sound m (Reach-Sound r)
