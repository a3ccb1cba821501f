-- ===== src/Recorder/Candles.antt =====
-- The manager of candlesticks of RealTime_Embedded_Systems/src/finnhub_data.cpp.
use university_collection.Prelude.{ℕ, ◌≤◌, ◌<◌, ◌≡◌, refl, sym, ap, ◌∙◌, inl, inr}
use university_collection.Prelude.{
  ==→≡, Bool, true, false, ltb, ◌==◌, if◌then◌else◌, if_elim, Bool-cases, Option, none, some, List,
  [], ◌∷◌, arith,
}
use university_collection.Recorder.Clock.{minute_floor_ms, minute_floor_ms-minute_ceil_ms}
use university_collection.Recorder.Trade.{TradeData}
use university_collection.Recorder.Minutes.{change, find, size}
use university_collection.Recorder.Candle as Candle
use university_collection.Recorder.Candle.{
  Candlestick, StaticCandlestick, new_candlestick, is_late, static_of,
}
use university_collection.Recorder.Average.{min_acceptable}

pub record CandlestickManager : Type 0 where
  pub candlesticks : List (ℕ × Candlestick)
  pub minutes_to_store : ℕ

-- `minute_floor_ms(close_timestamp) < min_acceptable_ms`; without a trade the time is the least one.
abbrev pub ends_before : Option ℕ → ℕ → Bool
ends_before none min_acceptable_ms = true
ends_before (some close) min_acceptable_ms = ltb (minute_floor_ms close) min_acceptable_ms

-- The loop that erases the first candlestick that ends before the minutes to store.
unfoldable pub erase_old : ℕ → List (ℕ × Candlestick) → List (ℕ × Candlestick)
erase_old min_acceptable_ms [] = []
erase_old min_acceptable_ms ((minute, c) ∷ rest) =
    let later = erase_old min_acceptable_ms rest in
    if ends_before c.close_timestamp min_acceptable_ms then rest else (minute, c) ∷ later

-- That loop, where there are more candlesticks than there should be.
unfoldable pub erase_excess :
    (min_acceptable_ms minutes : ℕ) → List (ℕ × Candlestick) → List (ℕ × Candlestick)
erase_excess min_acceptable_ms minutes l =
    if ltb minutes (size l) then erase_old min_acceptable_ms l else l

-- `CandlestickManager::addTrade`
unfoldable pub add_trade : (now : ℕ) → TradeData → CandlestickManager → CandlestickManager
add_trade now trade m =
    let threshold = min_acceptable now m.minutes_to_store in
    if ltb trade.timestamp threshold then m else record m {
      candlesticks = erase_excess threshold m.minutes_to_store (
          change new_candlestick (Candle.add_trade trade) (minute_floor_ms trade.timestamp)
            m.candlesticks);
    }

abbrev no_candlestick : StaticCandlestick
no_candlestick = record {
  open_price = 0;
  close_price = 0;
  min_price = 0;
  max_price = some 0;
  volume = 0;
}

abbrev pub shown : Option Candlestick → StaticCandlestick
shown none = no_candlestick
shown (some c) = static_of c

-- `CandlestickManager::getCandlestick`
unfoldable pub get_candlestick : ℕ → CandlestickManager → StaticCandlestick
get_candlestick timestamp_ms m = shown (find timestamp_ms m.candlesticks)

-- The minute of a time.
abbrev pub InMinute : ℕ → Option ℕ → Type 0
InMinute minute none = ⊥
InMinute minute (some close) = minute_floor_ms close ≡ minute

-- Each candlestick ends in the minute under which it stands.
abbrev pub Keyed : List (ℕ × Candlestick) → Type 0
Keyed [] = Unit
Keyed ((minute, c) ∷ rest) = InMinute minute c.close_timestamp × Keyed rest

close-add :
    (minute : ℕ) (t : TradeData) (c : Candlestick)
    → minute_floor_ms t.timestamp ≡ minute
    → InMinute minute c.close_timestamp
    → InMinute minute (Candle.add_trade t c).close_timestamp
unfolding Candle.add_trade
close-add minute t c same h =
    if_elim (InMinute minute) (is_late c.close_timestamp t.timestamp) _ _ (λ late. same)
      (λ early. h)

change-Keyed :
    (t : TradeData) (l : List (ℕ × Candlestick))
    → Keyed l
    → Keyed (change new_candlestick (Candle.add_trade t) (minute_floor_ms t.timestamp) l)
unfolding change
change-Keyed t [] k = unfold Candle.add_trade new_candlestick in (refl, tt)
change-Keyed t ((j, c) ∷ l) k = elim (Bool-cases (j == minute_floor_ms t.timestamp)) [
  | inl e ↦
      let same : j ≡ minute_floor_ms t.timestamp = ==→≡ _ _ e in
      rw e (close-add j t c (sym same) k.0, k.1)
  | inr e ↦ rw e (k.0, change-Keyed t l k.1)
]

erase_old-Keyed :
    (threshold : ℕ) (l : List (ℕ × Candlestick)) → Keyed l → Keyed (erase_old threshold l)
unfolding erase_old
erase_old-Keyed threshold [] k = tt
erase_old-Keyed threshold ((j, c) ∷ l) k =
    elim (Bool-cases (ends_before c.close_timestamp threshold)) [
      | inl e ↦ rw e k.1
      | inr e ↦ rw e (k.0, erase_old-Keyed threshold l k.1)
    ]

-- Erasing does not reach the minutes from the threshold on.
not_before :
    (minute threshold : ℕ) (close : Option ℕ)
    → InMinute minute close
    → ends_before close threshold ≡ true
    → minute < threshold
not_before minute threshold none k e = absurd k
not_before minute threshold (some close) k e = ground (arith, k, e)

find-erase_old :
    (threshold k : ℕ) (l : List (ℕ × Candlestick))
    → Keyed l
    → threshold ≤ k
    → find k (erase_old threshold l) ≡ find k l
unfolding erase_old find
find-erase_old threshold k [] h le = refl
find-erase_old threshold k ((j, c) ∷ l) h le =
    elim (Bool-cases (ends_before c.close_timestamp threshold)) [
      | inl e ↦
          let other : (j == k) ≡ false =
            ground (arith, le, not_before j threshold c.close_timestamp h.0 e) in
          rw (e, other) refl
      | inr e ↦ rw e (ap (λ r. if j == k then some c else r) (find-erase_old threshold k l h.1 le))
    ]

abbrev pub or_new : Option Candlestick → Candlestick
or_new none = new_candlestick
or_new (some c) = c

find-change :
    (t : TradeData) (k j : ℕ) (l : List (ℕ × Candlestick))
    → find j (change new_candlestick (Candle.add_trade t) k l)
      ≡ (if k == j then some (Candle.add_trade t (or_new (find j l))) else find j l)
unfolding find change
find-change t k j [] = refl
find-change t k j ((i, c) ∷ l) = ground (arith, find-change t k j l)

erase_excess_lem :
    (threshold minutes k : ℕ) (l : List (ℕ × Candlestick))
    → Keyed l
    → threshold ≤ k
    → (find k (erase_excess threshold minutes l) ≡ find k l)
      × Keyed (erase_excess threshold minutes l)
unfolding erase_excess
erase_excess_lem threshold minutes k l h le = elim (Bool-cases (ltb minutes (size l))) [
  | inl e ↦ rw e (find-erase_old threshold k l h le, erase_old-Keyed threshold l h)
  | inr e ↦ rw e (refl, h)
]

shown-if :
    (b : Bool) (c : Candlestick) (o : Option Candlestick)
    → shown (if b then some c else o) ≡ (if b then static_of c else shown o)
shown-if true c o = refl
shown-if false c o = refl

floor_before :
    (t k threshold : ℕ) → ltb t threshold ≡ true → threshold ≤ k → (minute_floor_ms t == k) ≡ false
floor_before t k threshold old le =
    let below = (minute_floor_ms-minute_ceil_ms t).1 in ground (arith, below, old, le)

-- For each of the minutes to store, `addTrade` gives the candlestick of that minute the trade if the trade
-- is of that minute, and else leaves it as it was; a trade that is too old changes none of them. And the
-- candlesticks go on to stand under the minute in which they end.
pub get_candlestick-add_trade :
    (now : ℕ) (t : TradeData) (m : CandlestickManager) (k : ℕ)
    → Keyed m.candlesticks
    → min_acceptable now m.minutes_to_store ≤ k
    → (get_candlestick k (add_trade now t m) ≡ (
        if minute_floor_ms t.timestamp == k
        then static_of (Candle.add_trade t (or_new (find k m.candlesticks)))
        else get_candlestick k m))
      × Keyed (add_trade now t m).candlesticks
unfolding add_trade get_candlestick
get_candlestick-add_trade now t m k h le =
    let threshold = min_acceptable now m.minutes_to_store in
    let minute = minute_floor_ms t.timestamp in
    elim (Bool-cases (ltb t.timestamp threshold)) [
      | inl old ↦ rw (old, floor_before t.timestamp k threshold old le) (refl, h)
      | inr new ↦
          let (found, keyed) =
            erase_excess_lem threshold m.minutes_to_store k
              (change new_candlestick (Candle.add_trade t) minute m.candlesticks)
              (change-Keyed t m.candlesticks h) le in
          rw new (
            ap shown (found ∙ find-change t minute k m.candlesticks)
                ∙ shown-if (minute == k) (Candle.add_trade t (or_new (find k m.candlesticks)))
                    (find k m.candlesticks),
            keyed,
          )
    ]
