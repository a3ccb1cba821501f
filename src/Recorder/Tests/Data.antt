-- ===== src/Recorder/Tests/Data.antt =====
-- The theorems about candlesticks, averages, the configuration and the set-up at concrete inputs.
use university_collection.Prelude.{
  ℕ, zero, suc, ◌≤◌, ◌≡◌, refl, true, ltb, ◌==◌, if◌then◌else◌, none, some, List, [], ◌∷◌, arith,
}
use university_collection.Prelude.{subst, sym}
use mathlib.Core.Option as Option
use mathlib.Core.List.{Memᴰ}
use mathlib.Core.List.Memᴰ
use university_collection.Recorder.Clock.{minute_floor_ms}
use university_collection.Recorder.Trade.{TradeData, int64_max, double_max}
use university_collection.Recorder.Minutes.{change, find}
use university_collection.Recorder.Candle as Candle
use university_collection.Recorder.Candle.{static_of}
use university_collection.Recorder.Candle.Summary.{Summary, candle_of, Ordinary, candle_of-Summary}
use university_collection.Recorder.Candles as Candles
use university_collection.Recorder.Candles.{
  CandlestickManager, get_candlestick, Keyed, or_new, get_candlestick-add_trade,
}
use university_collection.Recorder.Average as Average
use university_collection.Recorder.Average.{get_static, min_acceptable}
use university_collection.Recorder.Average.History.{
  Noted, taken, asked, average_of, sum_over, worth_of, volume_of,
}
use university_collection.Recorder.Average.Refine.{tidy, add_trade-average_of}
use university_collection.Recorder.Average.Window.{EachMinute, in_window, get_static-EachMinute}
use university_collection.Recorder.Config.{
  default_config, document, create_config_file, written_fields, all_plain, is_plain, load_from_file,
  returned, sanitize,
}
use university_collection.Recorder.Config.Sane.{Sane, load_from_file-Sane}
use university_collection.Recorder.Config.Trip.{
  Ints, Counts, unpinned, load_from_file-written_fields, load_from_file-create_config_file,
}

-- A trade of 2 at 3.
abbrev trade_at : ℕ → TradeData
trade_at time = record {
  price = 3000000;
  symbol = "NVDA";
  timestamp = time;
  volume = 2000000;
  arrival_timestamp = 0;
}

trade_at-Ordinary : (u : TradeData) → Memᴰ u (trade_at 70000 ∷ []) → Ordinary u
unfolding int64_max double_max
trade_at-Ordinary u (Memᴰ.head e) = subst Ordinary (sym e) (omega arith, omega arith, omega arith)
trade_at-Ordinary u (Memᴰ.tail m) = absurd (Memᴰ.not-nil m)

candle_of-Summary_example : Summary (trade_at 70000 ∷ []) (candle_of (trade_at 70000 ∷ []))
candle_of-Summary_example = candle_of-Summary (trade_at 70000) [] trade_at-Ordinary

abbrev no_candlesticks : CandlestickManager
no_candlesticks = record { candlesticks = []; minutes_to_store = 2 }

acceptable : min_acceptable 70000 2 ≤ 60000
unfolding min_acceptable minute_floor_ms
acceptable = omega arith

get_candlestick-add_trade_example :
    (get_candlestick 60000 (Candles.add_trade 70000 (trade_at 70000) no_candlesticks) ≡ (
      if minute_floor_ms 70000 == 60000
      then static_of (Candle.add_trade (trade_at 70000) (or_new (find 60000 [])))
      else get_candlestick 60000 no_candlesticks))
    × Keyed (Candles.add_trade 70000 (trade_at 70000) no_candlesticks).candlesticks
get_candlestick-add_trade_example =
    get_candlestick-add_trade 70000 (trade_at 70000) no_candlesticks 60000 tt acceptable

add_trade-average_of_example :
    Average.add_trade 70000 (trade_at 70000) (average_of 2 [])
    ≡ average_of 2 (
        if ltb 70000 (min_acceptable 70000 2)
        then []
        else tidy (min_acceptable 70000 2) 2 (taken (trade_at 70000) ∷ []))
add_trade-average_of_example = add_trade-average_of 70000 2 (trade_at 70000) []

-- One trade in the minute before.
abbrev one_trade : List Noted
one_trade = taken (trade_at 70000) ∷ []

one_trade-EachMinute :
    EachMinute (min_acceptable 130000 2) 2 (asked (minute_floor_ms 130000) ∷ one_trade)
unfolding min_acceptable minute_floor_ms change
one_trade-EachMinute zero h = refl
one_trade-EachMinute (suc zero) h = refl
one_trade-EachMinute (suc (suc i)) h = absurd (omega (arith, h))

get_static-EachMinute_example :
    ((get_static 130000 (average_of 2 one_trade)).0.sum
      ≡ sum_over (in_window (min_acceptable 130000 2) (minute_floor_ms 130000)) worth_of one_trade)
    × ((get_static 130000 (average_of 2 one_trade)).0.volume
        ≡ sum_over
            (in_window (min_acceptable 130000 2) (minute_floor_ms 130000))
            volume_of
            one_trade)
get_static-EachMinute_example =
    get_static-EachMinute 130000 2 one_trade (omega arith) one_trade-EachMinute

default-Ints : Ints default_config
unfolding default_config
default-Ints = record {
  ping = omega arith;
  pong = omega arith;
  initial = omega arith;
  most = omega arith;
  attempts = omega arith;
  window = omega arith;
}

default-Counts : Counts default_config
unfolding default_config
default-Counts = record {
  recording = omega arith;
  statistics = omega arith;
  exporting = omega arith;
}

default_symbols_plain : all_plain default_config.symbols ≡ true
unfolding default_config all_plain is_plain
default_symbols_plain = refl

-- A symbol with a quote.
quoted_symbol : create_config_file (record default_config { symbols = "A\"B" ∷ [] }) ≡ none
unfolding create_config_file all_plain is_plain
quoted_symbol = refl

load_from_file-create_config_file_example :
    Option.map
      (λ json. load_from_file 4 (document json) default_config)
      (create_config_file default_config)
    ≡ some (returned true (sanitize (unpinned default_config)))
load_from_file-create_config_file_example =
    load_from_file-create_config_file 4 default_config default_config default_symbols_plain
      default-Ints default-Counts

load_from_file-Sane_example : Sane 4 (sanitize (unpinned default_config))
unfolding sanitize default_config
load_from_file-Sane_example =
    load_from_file-Sane 4 (document (written_fields default_config))
      (sanitize (unpinned default_config))
      (load_from_file-written_fields 4 default_config default_config default-Ints default-Counts)
      (omega arith)
