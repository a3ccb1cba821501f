-- ===== src/Recorder/Average.antt =====
-- The moving average of RealTime_Embedded_Systems/src/finnhub_data.cpp. Sums and counts are in
-- millionths, without an upper bound; `now` is what the clock shows in milliseconds.
pub mod History
pub mod Refine
pub mod Window
use university_collection.Prelude.{ℕ, zero, suc, ◌+◌, ◌-◌, ◌*◌, ◌/◌}
use university_collection.Prelude.{ltb, ◌==◌, if◌then◌else◌, List, [], ◌∷◌}
use university_collection.Recorder.Clock.{ms_in_min, minute_floor_ms}
use university_collection.Recorder.Trade.{TradeData, float_to_int_factor, worth}
use university_collection.Recorder.Minutes.{change, at, size}

pub record SimpleAverage : Type 0 where
  pub sum : ℕ
  pub count : ℕ

abbrev pub new_average : SimpleAverage
new_average = record { sum = 0; count = 0 }

-- `SimpleAverage::addTrade`
unfoldable pub add_simple : TradeData → SimpleAverage → SimpleAverage
add_simple trade a = record { sum = a.sum + worth trade; count = a.count + trade.volume }

-- `StaticAverage`, with its value rounded down.
pub record StaticAverage : Type 0 where
  pub sum : ℕ
  pub volume : ℕ
  pub value : ℕ

-- `m_last_updated` is not used.
pub record MovingAverage : Type 0 where
  pub per_min_averages : List (ℕ × SimpleAverage)
  pub minutes_to_store : ℕ
  pub sum : ℕ
  pub count : ℕ

-- The constructor.
unfoldable new_moving_average : ℕ → MovingAverage
new_moving_average time_window_minutes = record {
  per_min_averages = [];
  minutes_to_store = time_window_minutes + 1;
  sum = 0;
  count = 0;
}

-- `min_acceptable_timestamp_ms`, the first of the minutes to store; 0 where that is negative.
unfoldable pub min_acceptable : (now minutes_to_store : ℕ) → ℕ
min_acceptable now minutes_to_store = minute_floor_ms now + ms_in_min - ms_in_min * minutes_to_store

-- The loop of `prune`: what stays, and the sum and the count after it.
unfoldable pub prune_loop :
    ℕ → List (ℕ × SimpleAverage) → (sum count : ℕ) → List (ℕ × SimpleAverage) × ℕ × ℕ
prune_loop threshold [] sum count = ([], sum, count)
prune_loop threshold ((container, a) ∷ rest) sum count =
    let old = ltb container threshold in
    let (kept, s, c) =
      prune_loop threshold rest (if old then sum - a.sum else sum)
        (if old then count - a.count else count) in
    ((if old then kept else (container, a) ∷ kept), s, c)

unfoldable pub prune : ℕ → MovingAverage → MovingAverage
prune threshold m =
    let (kept, s, c) = prune_loop threshold m.per_min_averages m.sum m.count in
    record m { per_min_averages = kept; sum = s; count = c }

-- `prune`, where there are more minutes than there should be.
unfoldable pub prune_excess : ℕ → MovingAverage → MovingAverage
prune_excess threshold m =
    if ltb m.minutes_to_store (size m.per_min_averages) then prune threshold m else m

-- `MovingAverage::addTrade`
unfoldable pub add_trade : (now : ℕ) → TradeData → MovingAverage → MovingAverage
add_trade now trade m =
    let threshold = min_acceptable now m.minutes_to_store in
    if ltb trade.timestamp threshold
    then m
    else prune_excess threshold (record m {
      sum = m.sum + worth trade;
      count = m.count + trade.volume;
      per_min_averages =
          change new_average (add_simple trade) (minute_floor_ms trade.timestamp)
            m.per_min_averages;
    })

-- `MovingAverage::getStatic`
unfoldable pub get_static : (now : ℕ) → MovingAverage → StaticAverage × MovingAverage
get_static now m =
    let current = minute_floor_ms now in
    let opened = change new_average (λ a. a) current m.per_min_averages in
    let current_average = at new_average current opened in
    let n =
      prune_excess (min_acceptable now m.minutes_to_store)
        (record m { per_min_averages = opened }) in
    let effective_sum = n.sum - current_average.sum in
    let effective_count = n.count - current_average.count in
    (
      record {
        sum = effective_sum;
        volume = effective_count;
        value =
            if effective_count == 0
            then 0
            else effective_sum * float_to_int_factor / effective_count;
      },
      n,
    )
