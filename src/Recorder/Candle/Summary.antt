-- ===== src/Recorder/Candle/Summary.antt =====
-- What the candlestick of RealTime_Embedded_Systems/src/finnhub_data.cpp says of its trades, and that it
-- forgets their order of arrival.
use university_collection.Prelude.{ℕ, ◌+◌, ◌≤◌, ◌<◌, ◌≡◌, ◌≢◌, refl}
use university_collection.Prelude.{
  sym, subst, ap, Bool, true, false, ltb, leb, if◌then◌else◌, if_elim, Option, none, some, List, [],
  ◌∷◌, arith,
}
use mathlib.Core.List.{Memᴰ}
use mathlib.Core.List.Memᴰ
use university_collection.Recorder.Trade.{TradeData, int64_max, double_max}
use university_collection.Recorder.Candle.{
  Candlestick, is_late, is_higher, new_candlestick, add_trade,
}

-- The candlestick after trades, the last one first.
abbrev pub candle_of : List TradeData → Candlestick
candle_of [] = new_candlestick
candle_of (trade ∷ earlier) = add_trade trade (candle_of earlier)

abbrev total_volume : List TradeData → ℕ
total_volume [] = 0
total_volume (trade ∷ earlier) = total_volume earlier + trade.volume

-- A price up to the highest one, and a time up to the last one.
abbrev pub UpTo : ℕ → Option ℕ → Type 0
UpTo price none = price ≡ 0
UpTo price (some max) = price ≤ max

abbrev pub Until : ℕ → Option ℕ → Type 0
Until timestamp none = ⊥
Until timestamp (some close) = timestamp ≤ close

-- A trade inside the range of prices and times.
abbrev pub Within : Candlestick → TradeData → Type 0
Within c t =
    (c.min_price ≤ t.price)
    × UpTo t.price c.max_price
    × (c.open_timestamp ≤ t.timestamp)
    × Until t.timestamp c.close_timestamp

-- What a candlestick is of the trades of `l`.
pub record Summary (l : List TradeData) (c : Candlestick) : Type 0 where
  pub within : (t : TradeData) → Memᴰ t l → Within c t
  pub lowest : (t : TradeData) × Memᴰ t l × (t.price ≡ c.min_price)
  pub highest : (t : TradeData) × Memᴰ t l × (c.max_price ≡ some t.price)
  pub first :
      (t : TradeData) × Memᴰ t l × ((t.timestamp ≡ c.open_timestamp) × (t.price ≡ c.open_price))
  pub last :
      (t : TradeData) × Memᴰ t l
      × ((c.close_timestamp ≡ some t.timestamp) × (t.price ≡ c.close_price))
  pub total : c.volume ≡ total_volume l

-- A trade with a time and a price that the initial values do not reach, and a price above 0.
abbrev pub Ordinary : TradeData → Type 0
Ordinary t = (t.timestamp < int64_max) × (t.price < double_max) × (0 < t.price)

-- The one that was chosen from the new trade and an earlier one.
abbrev Chosen : (TradeData → Type 0) → List TradeData → Type 0
Chosen P l = (t : TradeData) × Memᴰ t l × P t

choose :
    (P Q : TradeData → Type 0) (b : Bool) (t : TradeData) (l : List TradeData)
    → (b ≡ true → Q t)
    → (b ≡ false → (u : TradeData) → P u → Q u)
    → Chosen P l
    → Chosen Q (t ∷ l)
choose P Q true t l new old (u, m, p) = (t, Memᴰ.head refl, new refl)
choose P Q false t l new old (u, m, p) = (u, Memᴰ.tail m, old refl u p)

higher-new : (p : ℕ) (o : Option ℕ) → UpTo p (if is_higher p o then some p else o)
higher-new p none = if_elim (UpTo p) (ltb 0 p) _ _ (λ e. omega arith) (λ e. ground (arith, e))
higher-new p (some m) = if_elim (UpTo p) (ltb m p) _ _ (λ e. omega arith) (λ e. ground (arith, e))

higher-old : (p q : ℕ) (o : Option ℕ) → UpTo q o → UpTo q (if is_higher p o then some p else o)
higher-old p q none h = if_elim (UpTo q) (ltb 0 p) _ _ (λ e. ground (arith, e, h)) (λ e. h)
higher-old p q (some m) h = if_elim (UpTo q) (ltb m p) _ _ (λ e. ground (arith, e, h)) (λ e. h)

late-new : (t : ℕ) (o : Option ℕ) → Until t (if is_late o t then some t else o)
late-new t none = omega arith
late-new t (some m) = if_elim (Until t) (leb m t) _ _ (λ e. omega arith) (λ e. ground (arith, e))

late-old : (t u : ℕ) (o : Option ℕ) → Until u o → Until u (if is_late o t then some t else o)
late-old t u none h = absurd h
late-old t u (some m) h = if_elim (Until u) (leb m t) _ _ (λ e. ground (arith, e, h)) (λ e. h)

added :
    (t : TradeData) (l : List TradeData) (c : Candlestick)
    → ((u : TradeData) → Memᴰ u l → Within c u)
    → (u : TradeData) → Memᴰ u (t ∷ l)
    → Within (add_trade t c) u
unfolding add_trade
added t l c w u (Memᴰ.head e) = subst (Within (add_trade t c)) (sym e) (
  ground arith,
  higher-new t.price c.max_price,
  ground arith,
  late-new t.timestamp c.close_timestamp,
)
added t l c w u (Memᴰ.tail m) =
    let h = w u m in
    (
      ground (arith, h.0),
      higher-old t.price u.price c.max_price h.1,
      ground (arith, h.2),
      late-old t.timestamp u.timestamp c.close_timestamp h.3,
    )

single-Summary : (t : TradeData) → Ordinary t → Summary (t ∷ []) (candle_of (t ∷ []))
unfolding add_trade new_candlestick
single-Summary t o = record {
  within = added t [] (candle_of []) (λ u m. absurd (Memᴰ.not-nil m));
  lowest = (t, Memᴰ.head refl, ground (arith, o.1));
  highest =
      (let positive : ltb 0 t.price ≡ true = ground (arith, o.2) in
        (t, Memᴰ.head refl, rw positive refl));
  first = (t, Memᴰ.head refl, (ground (arith, o.0), ground (arith, o.0)));
  last = (t, Memᴰ.head refl, (refl, refl));
  total = refl;
}

add_trade-Summary :
    (t : TradeData) (l : List TradeData) (c : Candlestick)
    → Summary l c
    → Summary (t ∷ l) (add_trade t c)
unfolding add_trade
add_trade-Summary t l c s =
    let d = add_trade t c in
    record {
      within = added t l c s.within;
      lowest =
          choose _ _ (ltb t.price c.min_price) t l (λ e. ground (arith, e))
            (λ e u p. ground (arith, e, p)) s.lowest;
      highest =
          choose (λ u. c.max_price ≡ some u.price) (λ u. d.max_price ≡ some u.price)
            (is_higher t.price c.max_price) t l (λ e. rw e refl) (λ e u p. rw e p) s.highest;
      first =
          choose (λ u. (u.timestamp ≡ c.open_timestamp) × (u.price ≡ c.open_price))
            (λ u. (u.timestamp ≡ d.open_timestamp) × (u.price ≡ d.open_price))
            (ltb t.timestamp c.open_timestamp) t l (λ e. (ground (arith, e), ground (arith, e)))
            (λ e u p. (ground (arith, e, p), ground (arith, e, p))) s.first;
      last =
          choose (λ u. (c.close_timestamp ≡ some u.timestamp) × (u.price ≡ c.close_price))
            (λ u. (d.close_timestamp ≡ some u.timestamp) × (u.price ≡ d.close_price))
            (is_late c.close_timestamp t.timestamp) t l (λ e. (rw e refl, rw e refl))
            (λ e u p. (rw e p.0, rw e p.1)) s.last;
      total = ap (λ n. n + t.volume) s.total;
    }

module _ (s t : ℕ) (h : s ≢ t) where
  early_time :
      (o : ℕ)
      → (let a = if ltb t o then t else o in if ltb s a then s else a)
        ≡ (let a = if ltb s o then s else o in if ltb t a then t else a)
  early_time o = ground (arith, h)

  early_price :
      (o x y p : ℕ)
      → (if ltb s (if ltb t o then t else o) then x else if ltb t o then y else p)
        ≡ (if ltb t (if ltb s o then s else o) then y else if ltb s o then x else p)
  early_price o x y p = ground (arith, h)

  late_time :
      (o : Option ℕ)
      → (let a = if is_late o t then some t else o in if is_late a s then some s else a)
        ≡ (let a = if is_late o s then some s else o in if is_late a t then some t else a)
  late_time none = ground (arith, h)
  late_time (some o) = ground (arith, h)

  late_price :
      (o : Option ℕ) (x y p : ℕ)
      → (if is_late (if is_late o t then some t else o) s then x else if is_late o t then y else p)
        ≡ (if is_late (if is_late o s then some s else o) t
            then y
            else if is_late o s
            then x
            else p)
  late_price none x y p = ground (arith, h)
  late_price (some o) x y p = ground (arith, h)

lower :
    (x y m : ℕ)
    → (let a = if ltb y m then y else m in if ltb x a then x else a)
      ≡ (let a = if ltb x m then x else m in if ltb y a then y else a)
lower x y m = ground arith

higher :
    (x y : ℕ) (m : Option ℕ)
    → (let a = if is_higher y m then some y else m in if is_higher x a then some x else a)
      ≡ (let a = if is_higher x m then some x else m in if is_higher y a then some y else a)
higher x y none = ground arith
higher x y (some m) = ground arith

-- Two trades at different times give the same candlestick in either order of arrival.
add_trade-swap :
    (t u : TradeData) (c : Candlestick)
    → t.timestamp ≢ u.timestamp
    → add_trade t (add_trade u c) ≡ add_trade u (add_trade t c)
unfolding add_trade
add_trade-swap t u c h = λ i. record {
  open_timestamp = early_time t.timestamp u.timestamp h c.open_timestamp i;
  close_timestamp = late_time t.timestamp u.timestamp h c.close_timestamp i;
  open_price =
      early_price t.timestamp u.timestamp h c.open_timestamp t.price u.price c.open_price i;
  close_price =
      late_price t.timestamp u.timestamp h c.close_timestamp t.price u.price c.close_price i;
  min_price = lower t.price u.price c.min_price i;
  max_price = higher t.price u.price c.max_price i;
  volume =
      (let e : c.volume + u.volume + t.volume ≡ c.volume + t.volume + u.volume = omega arith in
        e i);
}

-- Whatever the order of the trades (the last one first in the list), the candlestick gives their lowest
-- and highest price, the price of a trade at the earliest time and of one at the latest, and the sum of
-- their volumes; for at least one trade, with prices above 0, and with times and prices below the initial
-- values of the minimum.
pub candle_of-Summary :
    (t : TradeData) (l : List TradeData)
    → ((u : TradeData) → Memᴰ u (t ∷ l) → Ordinary u)
    → Summary (t ∷ l) (candle_of (t ∷ l))
candle_of-Summary t [] o = single-Summary t (o t (Memᴰ.head refl))
candle_of-Summary t (u ∷ l) o =
    add_trade-Summary t (u ∷ l) (candle_of (u ∷ l))
      (candle_of-Summary u l (λ v m. o v (Memᴰ.tail m)))
