-- ===== src/Recorder/Client.antt =====
-- The websocket client of RealTime_Embedded_Systems/src/finnhub_client.cpp. The websocket library is not
-- modelled: what each call of `lws_service` calls back is a list of events. Log files are left out.
pub mod Backoff
pub mod Session
pub mod Subscribe
pub mod Routes
use university_collection.Prelude.{ℕ, zero, suc, ◌+◌, ◌-◌, ◌*◌, ◌%◌, ◌^◌}
use university_collection.Prelude.{
  Bool, true, false, not, ◌&&◌, ltb, ◌==◌, if◌then◌else◌, Option, none, some, List, [], ◌∷◌, ◌++◌,
}
use university_collection.Prelude.Int.{ℤ, pos, negsuc}
use university_collection.Recorder.Config.{signed}
use university_collection.Recorder.Trade.{TradeData, float_to_int_factor}
use university_collection.Recorder.Setup.{TaskQueues, lookup, push_at}
use Prim.Native.String.{String}
use text.Mathlib.Text.{◌==◌ as str_eq}

infixl 5 ◌>>=◌
-- The rest of a computation that can throw.
abbrev pub ◌>>=◌ {ℓ} : {A B : Type ℓ} → Option A → (A → Option B) → Option B
none >>= next = none
some a >>= next = next a

-- An item of the `data` array of a message: a field that is missing or of another type is `none`.
pub record Item : Type 0 where
  pub p : Option ℕ
  pub s : Option String
  pub t : Option ℕ
  pub v : Option ℕ

-- A message: the JSON library refuses it, or it has a type and an array, where they are there.
pub data Message : Type 0 where
  refused : Message
  parsed : Option String → Option (List Item) → Message

-- The body of the loop of `parseMessage`; `none` is an error of the library.
unfoldable pub trade_of : (arrival_timestamp_us : ℕ) → Item → Option TradeData
trade_of arrival_timestamp_us item = do
  price ← item.p
  symbol ← item.s
  timestamp ← item.t
  volume ← item.v
  some (record {
    price = price;
    symbol = symbol;
    timestamp = timestamp;
    volume = if volume == 0 then float_to_int_factor else volume;
    arrival_timestamp = arrival_timestamp_us;
  })

-- Appends what there is.
abbrev push_back : Option TradeData → List TradeData → List TradeData
push_back none rest = rest
push_back (some trade) rest = trade ∷ rest

unfoldable pub parse_items : ℕ → List Item → List TradeData
parse_items arrival_timestamp_us [] = []
parse_items arrival_timestamp_us (item ∷ rest) =
    push_back (trade_of arrival_timestamp_us item) (parse_items arrival_timestamp_us rest)

unfoldable pub parse_message : Message → ℕ → List TradeData
parse_message (parsed (some type) (some items)) arrival_timestamp_us =
    let trades = parse_items arrival_timestamp_us items in
    if str_eq type "trade" then trades else []
parse_message message arrival_timestamp_us = []

-- The fields of the client, `m_wsi` as whether it is set; beside them the queues of the workers and the
-- symbols of the subscriptions that were written.
pub record Client : Type 0 where
  pub should_stop : Bool
  pub wsi : Bool
  pub tasks_map : List (String × TaskQueues)
  pub symbols : List String
  pub subscribed : Bool
  pub secs_since_valid_ping : ℕ
  pub secs_since_valid_hangup : ℕ
  pub connection_attempts : ℕ
  pub max_connection_attempts : ℕ
  pub initial_reconnection_delay : ℕ
  pub max_reconnection_delay : ℕ
  pub recording_queues : List (List TradeData)
  pub statistics_queues : List (List TradeData)
  pub written : List String

-- The fields of the retry policy are `uint16_t`.
unfoldable pub set_ping_interval : ℕ → Client → Client
set_ping_interval interval_sec c =
    let previous_timeout = (c.secs_since_valid_hangup + 65536 - c.secs_since_valid_ping) % 65536 in
    record c {
      secs_since_valid_ping = interval_sec % 65536;
      secs_since_valid_hangup = (interval_sec + previous_timeout) % 65536;
    }

unfoldable pub set_pong_timeout : ℕ → Client → Client
set_pong_timeout timeout_sec c = record c {
  secs_since_valid_hangup = (c.secs_since_valid_ping + timeout_sec) % 65536;
}

unfoldable set_reconnection_strategy : (initial_delay max_delay max_attempts : ℕ) → Client → Client
set_reconnection_strategy initial_delay max_delay max_attempts c = record c {
  initial_reconnection_delay = initial_delay;
  max_reconnection_delay = max_delay;
  max_connection_attempts = max_attempts;
}

-- `reset`; what it asks of the library comes back as events.
unfoldable pub reset : Client → Client
reset c = record c { wsi = false; subscribed = false }

unfoldable pub stop : Client → Client
unfolding reset
stop c = reset (record c { should_stop = true })

-- A trade goes to both queues of its symbol; `m_tasks_map.at` throws for another symbol.
unfoldable pub deliver : TradeData → Client → Option Client
deliver trade c = do
  queues ← lookup trade.symbol c.tasks_map
  some (record c {
    recording_queues = push_at queues.recording_queue trade c.recording_queues;
    statistics_queues = push_at queues.statistics_queue trade c.statistics_queues;
  })

unfoldable pub deliver_all : List TradeData → Client → Option Client
deliver_all [] c = some c
deliver_all (trade ∷ rest) c = deliver trade c >>= deliver_all rest

-- The reasons of `websocketCallback`, and a call of `stop` by the handler of SIGINT.
pub data Event : Type 0 where
  established : Event
  receive : Message → (arrival_timestamp_us : ℕ) → Event
  writeable : Event
  connection_error : Event
  closed : Event
  wsi_destroy : Event
  other_reason : Event
  interrupted : Event

-- `subscribeToSymbols`: a failed write is skipped.
unfoldable pub subscribe_to_symbols : Client → Client
subscribe_to_symbols c = record c { written = c.written ++ c.symbols }

unfoldable pub websocket_callback : Event → Client → Option Client
websocket_callback established c = some (record c { connection_attempts = 0 })
websocket_callback (receive message arrival_timestamp_us) c =
    deliver_all (parse_message message arrival_timestamp_us) c
websocket_callback writeable c =
    some (if not c.subscribed then record (subscribe_to_symbols c) { subscribed = true } else c)
websocket_callback connection_error c = some (reset (record c { wsi = false }))
websocket_callback closed c = some (reset (record c { wsi = false }))
websocket_callback wsi_destroy c = some (record c { wsi = false })
websocket_callback other_reason c = some c
websocket_callback interrupted c = some (stop c)

-- The callbacks of one call of `lws_service`.
unfoldable pub callbacks : List Event → Client → Option Client
callbacks [] c = some c
callbacks (e ∷ es) c = websocket_callback e c >>= callbacks es

-- The event loop of `connect`, by the calls of `lws_service`; after the last call the service has failed.
unfoldable pub serve : List (List Event) → Client → Option Client
serve [] c = some c
serve (es ∷ calls) c = let next = callbacks es c >>= serve calls in if c.wsi then next else some c

-- `connect`: there is no connection, or the calls of one.
unfoldable pub connect : Option (List (List Event)) → Client → Option Client
connect none c = some (record c { connection_attempts = c.connection_attempts + 1; wsi = false })
connect (some calls) c =
    serve calls (record c { connection_attempts = c.connection_attempts + 1; wsi = true })

-- `std::min` of two values of an `int`, the second one not negative.
abbrev min_int : ℤ → ℕ → ℤ
min_int (pos n) m = if ltb m n then pos m else pos n
min_int (negsuc n) m = negsuc n

-- The delay before the next attempt, as the hardware multiplies: the code overflows an `int`.
unfoldable pub reconnect_timeout_ms : Client → ℤ
reconnect_timeout_ms c =
    min_int (signed (c.initial_reconnection_delay * 2 ^ c.connection_attempts % 4294967296))
      c.max_reconnection_delay

-- An attempt to reconnect: whether SIGINT comes during the sleep before it, and how it goes.
pub record Attempt : Type 0 where
  pub interrupted_asleep : Bool
  pub connection : Option (List (List Event))

-- The delay joins those of the later rounds.
abbrev pub slept : ℤ → Option (Client × List ℤ) → Option (Client × List ℤ)
slept delay none = none
slept delay (some (c, delays)) = some (c, delay ∷ delays)

-- The loop of `run` for a list of attempts, with the delays; after the last one it is still running.
unfoldable pub run_loop : List Attempt → Client → Option (Client × List ℤ)
run_loop [] c = some (c, [])
run_loop (a ∷ rest) c =
    let after_sleep = if a.interrupted_asleep then stop c else c in
    let again =
      slept (reconnect_timeout_ms c) (connect a.connection after_sleep >>= run_loop rest) in
    if not c.should_stop && ltb c.connection_attempts c.max_connection_attempts
    then again
    else some (c, [])

unfoldable pub run :
    List String → Option (List (List Event)) → List Attempt → Client → Option (Client × List ℤ)
run symbols first attempts c = do
  d ← connect first (record c { symbols = symbols; should_stop = false })
  run_loop attempts (record d { connection_attempts = 0 })
