-- ===== src/Recorder/Trade.antt =====
-- The data of RealTime_Embedded_Systems/src/finnhub_data.hpp. A `double` for a price or a volume is a
-- number of millionths, not negative; so the integers that the code makes of them are exact.
use university_collection.Prelude.{ℕ, ◌-◌, ◌*◌, ◌/◌, ◌^◌}
use Prim.Native.String.{String}

-- `FLOAT_TO_INT_FACTOR`
abbrev pub float_to_int_factor : ℕ
float_to_int_factor = 1000000

pub record TradeData : Type 0 where
  pub price : ℕ
  pub symbol : String
  pub timestamp : ℕ
  pub volume : ℕ
  pub arrival_timestamp : ℕ

-- `(int_price * int_volume) / FLOAT_TO_INT_FACTOR`, in `addTrade` of both averages, for products within an `int64_t`: a
-- larger one has no defined value in the source.
unfoldable pub worth : TradeData → ℕ
worth trade = trade.price * trade.volume / float_to_int_factor

-- `std::numeric_limits<int64_t>::max()`
unfoldable pub int64_max : ℕ
int64_max = 2 ^ 63 - 1

-- `std::numeric_limits<double>::max()`, in millionths.
unfoldable pub double_max : ℕ
double_max = (2 ^ 53 - 1) * 2 ^ 971 * 1000000
