-- ===== src/Recorder/Tasks.antt =====
-- The work of the workers, RealTime_Embedded_Systems/src/tasks.cpp. A row of a file is its
-- fields, before they are printed; `now` is what the clock shows in milliseconds during the whole call,
-- and `now_us` in microseconds.
use university_collection.Prelude.{ℕ, ◌-◌, ◌*◌}
use university_collection.Prelude.{ltb, if◌then◌else◌, Option, none, some, List, [], ◌∷◌}
use university_collection.Prelude.Int.{ℤ, pos, negsuc}
use university_collection.Recorder.Clock.{ms_in_min, us_in_ms, minute_floor_ms}
use university_collection.Recorder.Trade.{TradeData}
use university_collection.Recorder.Candle.{StaticCandlestick}
use university_collection.Recorder.Average as Average
use university_collection.Recorder.Average.{MovingAverage, StaticAverage, get_static}
use university_collection.Recorder.Candles as Candles
use university_collection.Recorder.Candles.{CandlestickManager, get_candlestick}
use university_collection.Recorder.Setup.{insert, lookup}
use Prim.Native.String.{String}

-- A difference of two times.
abbrev minus : ℕ → ℕ → ℤ
minus a b = if ltb a b then negsuc (b - a - 1) else pos (a - b)

-- The fields that `recordTrade` writes.
record TradeRow : Type 0 where
  pub trade_timestamp_us : ℕ
  pub arrival_delay_us : ℤ
  pub recording_delay_us : ℤ
  pub volume : ℕ
  pub price : ℕ

unfoldable record_trade : (now_us : ℕ) → TradeData → TradeRow
record_trade now_us trade =
    let trade_timestamp_us = trade.timestamp * us_in_ms in
    record {
      trade_timestamp_us = trade_timestamp_us;
      arrival_delay_us = minus trade.arrival_timestamp trade_timestamp_us;
      recording_delay_us = minus now_us trade.arrival_timestamp;
      volume = trade.volume;
      price = trade.price;
    }

-- The two maps from symbols.
record Statistics : Type 0 where
  pub candlesticks : List (String × CandlestickManager)
  pub averages : List (String × MovingAverage)

-- Both containers of a symbol, where `at` does not throw.
abbrev both {ℓ} :
    {A : Type ℓ}
    → Option MovingAverage
    → Option CandlestickManager
    → (MovingAverage → CandlestickManager → Option A)
    → Option A
both none c next = none
both (some a) none next = none
both (some a) (some c) next = next a c

unfoldable update_statistics : (now : ℕ) → TradeData → Statistics → Option Statistics
update_statistics now trade s =
    both (lookup trade.symbol s.averages) (lookup trade.symbol s.candlesticks) (λ a c.
      some (record {
        candlesticks = insert trade.symbol (Candles.add_trade now trade c) s.candlesticks;
        averages = insert trade.symbol (Average.add_trade now trade a) s.averages;
      }))

-- The fields that `exportStatistics` writes for a symbol.
record StatisticsRow : Type 0 where
  pub symbol : String
  pub timer_wakeup_us : ℕ
  pub delay_us : ℤ
  pub candlestick : StaticCandlestick
  pub value : ℕ
  pub volume : ℕ

-- The row goes before those of the later symbols.
abbrev written_before :
    StatisticsRow
    → Option (List StatisticsRow × Statistics)
    → Option (List StatisticsRow × Statistics)
written_before row none = none
written_before row (some (rows, s)) = some (row ∷ rows, s)

unfoldable export_statistics :
    (now now_us : ℕ) → List String → Statistics → Option (List StatisticsRow × Statistics)
export_statistics now now_us [] s = some ([], s)
export_statistics now now_us (symbol ∷ rest) s =
    let timer_wake_timestamp_ms = minute_floor_ms now in
    let previous_minute_timestamp_ms = timer_wake_timestamp_ms - ms_in_min in
    let timer_wakeup_us = timer_wake_timestamp_ms * us_in_ms in
    both (lookup symbol s.averages) (lookup symbol s.candlesticks) (λ a c.
      let (average, a') = get_static now a in
      written_before
        (record {
          symbol = symbol;
          timer_wakeup_us = timer_wakeup_us;
          delay_us = minus now_us timer_wakeup_us;
          candlestick = get_candlestick previous_minute_timestamp_ms c;
          value = average.value;
          volume = average.volume;
        })
        (export_statistics now now_us rest (record s { averages = insert symbol a' s.averages })))
