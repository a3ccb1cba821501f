-- ===== src/Recorder/Candle.antt =====
-- The candlestick of RealTime_Embedded_Systems/src/finnhub_data.cpp: the first and the last price of a
-- minute, the lowest and the highest, and the volume.
pub mod Summary
use university_collection.Prelude.{ℕ, ◌+◌, ◌≤◌, ◌<◌, ◌≡◌, ◌≢◌, refl}
use university_collection.Prelude.{
  sym, subst, ap, Bool, true, false, ltb, leb, if◌then◌else◌, Option, none, some, List, [], ◌∷◌,
  arith,
}
use mathlib.Core.List.{Memᴰ}
use mathlib.Core.List.Memᴰ
use university_collection.Recorder.Trade.{TradeData, int64_max, double_max}

-- The time of the last trade is `none` at the least `int64_t`, where it starts, which is before all times.
-- The highest price is `none` at the least positive `double`, where it starts, which is more than a price
-- of 0 and less than any other.
pub record Candlestick : Type 0 where
  pub open_timestamp : ℕ
  pub close_timestamp : Option ℕ
  pub open_price : ℕ
  pub close_price : ℕ
  pub min_price : ℕ
  pub max_price : Option ℕ
  pub volume : ℕ

-- `timestamp >= close_timestamp`
abbrev pub is_late : Option ℕ → ℕ → Bool
is_late none timestamp = true
is_late (some close) timestamp = leb close timestamp

-- `price > max_price`
abbrev pub is_higher : ℕ → Option ℕ → Bool
is_higher price none = ltb 0 price
is_higher price (some max) = ltb max price

unfoldable pub new_candlestick : Candlestick
new_candlestick = record {
  open_timestamp = int64_max;
  close_timestamp = none;
  open_price = 0;
  close_price = 0;
  min_price = double_max;
  max_price = none;
  volume = 0;
}

-- `Candlestick::addTrade`
unfoldable pub add_trade : TradeData → Candlestick → Candlestick
add_trade trade c =
    let late = is_late c.close_timestamp trade.timestamp in
    let early = ltb trade.timestamp c.open_timestamp in
    record {
      open_timestamp = if early then trade.timestamp else c.open_timestamp;
      close_timestamp = if late then some trade.timestamp else c.close_timestamp;
      open_price = if early then trade.price else c.open_price;
      close_price = if late then trade.price else c.close_price;
      min_price = if ltb trade.price c.min_price then trade.price else c.min_price;
      max_price = if is_higher trade.price c.max_price then some trade.price else c.max_price;
      volume = c.volume + trade.volume;
    }

-- `StaticCandlestick`, with its volume in millionths, and its highest price as that of a candlestick.
pub record StaticCandlestick : Type 0 where
  pub open_price : ℕ
  pub close_price : ℕ
  pub min_price : ℕ
  pub max_price : Option ℕ
  pub volume : ℕ

-- `Candlestick::getStatic`
unfoldable pub static_of : Candlestick → StaticCandlestick
static_of c = record {
  open_price = c.open_price;
  close_price = c.close_price;
  min_price = c.min_price;
  max_price = c.max_price;
  volume = c.volume;
}
