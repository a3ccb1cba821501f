-- ===== src/Recorder/Tests/Threads.antt =====
-- The theorems about the client and the workers at concrete inputs.
use university_collection.Prelude.{
  ℕ, ◌-◌, ◌≡◌, refl, true, false, ltb, if◌then◌else◌, none, some, [], ◌∷◌, arith,
}
use university_collection.Prelude.Int.{pos, negsuc}
use university_collection.Recorder.Trade.{TradeData}
use university_collection.Recorder.Setup.{create_tasks_map}
use university_collection.Recorder.Client.{deliver_all}
use university_collection.Recorder.Client.Routes.{Delivered, deliver_all-create_tasks_map}
use university_collection.Recorder.Worker.{
  System, start, Reach, begin, then_step, take, dequeue_conditional,
}
use university_collection.Recorder.Worker.Sound.{Sound, Reach-Sound}
use university_collection.Recorder.Client.{
  Client, established, writeable, run_loop, reconnect_timeout_ms,
}
use university_collection.Recorder.Client.Backoff.{doubled, capped, reconnect_timeout_ms_lem}
use university_collection.Recorder.Client.Session.{
  refusals, GaveUp, run_loop-GaveUp, StillOpen, run_loop_interrupted_asleep,
}

-- A client with the default delays after `n` failed attempts.
abbrev client_after : ℕ → Client
client_after n = record {
  should_stop = false;
  wsi = false;
  tasks_map = [];
  symbols = "NVDA" ∷ [];
  subscribed = false;
  secs_since_valid_ping = 30;
  secs_since_valid_hangup = 40;
  connection_attempts = n;
  max_connection_attempts = 2;
  initial_reconnection_delay = 10000;
  max_reconnection_delay = 60000;
  recording_queues = [];
  statistics_queues = [];
  written = [];
}

reconnect_timeout_ms_lem_example : reconnect_timeout_ms (client_after 18) ≡ (
    if ltb (doubled (client_after 18)) 2147483648
    then pos (capped 60000 (doubled (client_after 18)))
    else negsuc (4294967295 - doubled (client_after 18)))
reconnect_timeout_ms_lem_example = reconnect_timeout_ms_lem (client_after 18) (omega arith)

run_loop-GaveUp_example : GaveUp 0 2 (run_loop (refusals (none ∷ some [] ∷ [])) (client_after 0))
run_loop-GaveUp_example =
    run_loop-GaveUp (none ∷ some [] ∷ []) (client_after 0) refl (omega arith) (omega arith)

run_loop_interrupted_asleep_example : StillOpen (
    run_loop
      (record { interrupted_asleep = true; connection = some ((established ∷ writeable ∷ []) ∷ []) }
        ∷ [])
      (client_after 0))
run_loop_interrupted_asleep_example =
    run_loop_interrupted_asleep (client_after 0) ((established ∷ writeable ∷ []) ∷ []) refl
      (omega arith) (tt, tt)

-- The worker has gone to sleep.
abbrev resting : System
unfolding start dequeue_conditional
resting = dequeue_conditional start.stop_flag start.queue start

resting-Reach : Reach resting
unfolding resting start dequeue_conditional
resting-Reach = then_step begin (take refl)

Reach-Sound_example : Sound resting
Reach-Sound_example = Reach-Sound resting-Reach

-- A client with one queue of each kind, and the map for its symbol.
abbrev routing : Client
routing = record (client_after 0) {
  tasks_map = create_tasks_map ("NVDA" ∷ []) 1 1;
  recording_queues = [] ∷ [];
  statistics_queues = [] ∷ [];
}

abbrev trade : TradeData
trade = record {
  price = 3000000;
  symbol = "NVDA";
  timestamp = 70000;
  volume = 2000000;
  arrival_timestamp = 0;
}

deliver_all-create_tasks_map_example :
    Delivered (trade ∷ []) routing (deliver_all (trade ∷ []) routing)
deliver_all-create_tasks_map_example =
    deliver_all-create_tasks_map ("NVDA" ∷ []) (trade ∷ []) routing (omega arith) (omega arith) refl
