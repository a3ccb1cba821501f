-- ===== src/Recorder/Client/Routes.antt =====
-- Where the trades of a message go: RealTime_Embedded_Systems/src/finnhub_client.cpp with the map of
-- worker_setup.hpp.
use university_collection.Prelude.{ℕ, ◌+◌, ◌<◌, ◌≡◌, refl, sym, ap, ◌∙◌, subst, inl, inr}
use university_collection.Prelude.{
  ◌==◌, if◌then◌else◌, Bool-cases, Option, none, some, Option-cases, List, [], ◌∷◌, ◌++◌,
}
use mathlib.Core.List.{append_assoc, append-nil, Memᴰ}
use native.Mathlib.Nat.{mod-lt}
use university_collection.Recorder.Config.{length}
use university_collection.Recorder.Setup.{
  insert, lookup, push_at, TaskQueues, tasks_loop, create_tasks_map,
}
use university_collection.Recorder.Setup.Shares.{share_of, share_of-push_at, length-push_at}
use university_collection.Recorder.Trade.{TradeData}
use university_collection.Recorder.Client.{◌>>=◌, Client, deliver, deliver_all}
use Prim.Native.String.{String}
use text.Mathlib.Text.{◌==◌ as str_eq}

-- All queues of a map are among `r` recording and `s` statistics queues.
abbrev InRange : (r s : ℕ) → List (String × TaskQueues) → Type 0
InRange r s [] = Unit
InRange r s ((symbol, q) ∷ map) =
    ((q.recording_queue < r) × (q.statistics_queue < s)) × InRange r s map

insert-InRange :
    (r s : ℕ) (symbol : String) (q : TaskQueues) (map : List (String × TaskQueues))
    → (q.recording_queue < r) × (q.statistics_queue < s)
    → InRange r s map
    → InRange r s (insert symbol q map)
unfolding insert
insert-InRange r s symbol q [] h i = (h, tt)
insert-InRange r s symbol q ((other, old) ∷ map) h i = elim (Bool-cases (str_eq other symbol)) [
  | inl e ↦ rw e (h, i.1)
  | inr e ↦ rw e (i.0, insert-InRange r s symbol q map h i.1)
]

tasks_loop-InRange :
    (i r s : ℕ) (symbols : List String) (map : List (String × TaskQueues))
    → 0 < r
    → 0 < s
    → InRange r s map
    → InRange r s (tasks_loop i r s symbols map)
unfolding tasks_loop
tasks_loop-InRange i r s [] map hr hs h = h
tasks_loop-InRange i r s (x ∷ rest) map hr hs h =
    tasks_loop-InRange (i + 1) r s rest _ hr hs
      (insert-InRange r s x _ map (mod-lt i hr, mod-lt i hs) h)

lookup-InRange :
    (r s : ℕ) (symbol : String) (map : List (String × TaskQueues)) (q : TaskQueues)
    → InRange r s map
    → lookup symbol map ≡ some q
    → (q.recording_queue < r) × (q.statistics_queue < s)
unfolding lookup
lookup-InRange r s symbol [] q h e = absurd (cc)
lookup-InRange r s symbol ((other, old) ∷ map) q h e = elim (Bool-cases (str_eq other symbol)) [
  | inl same ↦
      let f : some old ≡ some q = sym (rw same refl) ∙ e in
      let g : old ≡ q = cc in subst (λ x. (x.recording_queue < r) × (x.statistics_queue < s)) g h.0
  | inr different ↦ lookup-InRange r s symbol map q h.1 (sym (rw different refl) ∙ e)
]

-- A trade before others, if its queue is `w`.
abbrev routed :
    (TaskQueues → ℕ) → (w : ℕ) → TradeData → Option TaskQueues → List TradeData → List TradeData
routed queue w trade none rest = rest
routed queue w trade (some q) rest = if queue q == w then trade ∷ rest else rest

-- The trades whose symbol has the queue `w`, in their order.
abbrev trades_for :
    (TaskQueues → ℕ) → List (String × TaskQueues) → (w : ℕ) → List TradeData → List TradeData
trades_for queue map w [] = []
trades_for queue map w (trade ∷ rest) =
    routed queue w trade (lookup trade.symbol map) (trades_for queue map w rest)

-- One kind of queue, where `f` gives its index.
abbrev Gains :
    (TaskQueues → ℕ)
    → List (String × TaskQueues)
    → List TradeData
    → (before after : List (List TradeData)) → Type 0
Gains queue map trades before after =
    (w : ℕ) → share_of w after ≡ share_of w before ++ trades_for queue map w trades

-- What a delivery does: each queue gains its trades, or a trade has no queue.
abbrev pub Delivered : List TradeData → Client → Option Client → Type 0
Delivered trades c none = (t : TradeData) × Memᴰ t trades × (lookup t.symbol c.tasks_map ≡ none)
Delivered trades c (some d) =
    ((w : ℕ)
      → share_of w d.recording_queues
        ≡ share_of w c.recording_queues ++ trades_for (λ q. q.recording_queue) c.tasks_map w trades)
    × ((w : ℕ)
        → share_of w d.statistics_queues
          ≡ share_of w c.statistics_queues
            ++ trades_for (λ q. q.statistics_queue) c.tasks_map w trades)

Gains-more :
    (queue : TaskQueues → ℕ) (map : List (String × TaskQueues)) (trade : TradeData)
    (rest : List TradeData) (q : TaskQueues) (before after : List (List TradeData))
    → lookup trade.symbol map ≡ some q
    → queue q < length before
    → Gains queue map rest (push_at (queue q) trade before) after
    → Gains queue map (trade ∷ rest) before after
Gains-more queue map trade rest q before after e h g w =
    let later = trades_for queue map w rest in
    let here : share_of w (push_at (queue q) trade before) ++ later
        ≡ share_of w before ++ (if queue q == w then trade ∷ later else later) =
      ap (λ l. l ++ later) (share_of-push_at w (queue q) trade before h)
      ∙ (elim (Bool-cases (queue q == w)) [
        | inl mine ↦ rw mine (append_assoc (share_of w before) (trade ∷ []) later)
        | inr other ↦ rw other refl
      ]) in
    g w ∙ here ∙ ap (λ o. share_of w before ++ routed queue w trade o later) (sym e)

-- The client after a trade with the queues `q`.
abbrev pushed : TradeData → Client → TaskQueues → Client
pushed trade c q = record c {
  recording_queues = push_at q.recording_queue trade c.recording_queues;
  statistics_queues = push_at q.statistics_queue trade c.statistics_queues;
}

Delivered-more :
    (trade : TradeData) (rest : List TradeData) (c : Client) (q : TaskQueues) (r : Option Client)
    → lookup trade.symbol c.tasks_map ≡ some q
    → (q.recording_queue < length c.recording_queues)
      × (q.statistics_queue < length c.statistics_queues)
    → Delivered rest (pushed trade c q) r
    → Delivered (trade ∷ rest) c r
Delivered-more trade rest c q none e h (t, m, missing) = (t, Memᴰ.tail m, missing)
Delivered-more trade rest c q (some d) e h (r, s) = (
  Gains-more (λ x. x.recording_queue) c.tasks_map trade rest q c.recording_queues d.recording_queues
      e h.0 r,
  Gains-more (λ x. x.statistics_queue) c.tasks_map trade rest q c.statistics_queues
      d.statistics_queues e h.1 s,
)

deliver_all-Delivered :
    (trades : List TradeData) (c : Client)
    → InRange (length c.recording_queues) (length c.statistics_queues) c.tasks_map
    → Delivered trades c (deliver_all trades c)
unfolding deliver_all deliver
deliver_all-Delivered [] c h = (
  λ w. sym (append-nil (share_of w c.recording_queues)),
  λ w. sym (append-nil (share_of w c.statistics_queues)),
)
deliver_all-Delivered (trade ∷ rest) c h = elim (Option-cases (lookup trade.symbol c.tasks_map)) [
  | inl e ↦
      subst
        (λ o.
          Delivered (trade ∷ rest) c ((o >>= λ q. some (pushed trade c q)) >>= deliver_all rest))
        (sym e) (trade, Memᴰ.head refl, e)
  | inr (q, e) ↦
      let fits =
        lookup-InRange (length c.recording_queues) (length c.statistics_queues) trade.symbol
          c.tasks_map q h e in
      let a = length-push_at q.recording_queue trade c.recording_queues in
      let b = length-push_at q.statistics_queue trade c.statistics_queues in
      let ih = deliver_all-Delivered rest (pushed trade c q) (
        subst
          (λ n.
            InRange n (length (push_at q.statistics_queue trade c.statistics_queues)) c.tasks_map)
          (sym a) (subst (λ n. InRange (length c.recording_queues) n c.tasks_map) (sym b) h)) in
      subst
        (λ o.
          Delivered (trade ∷ rest) c ((o >>= λ q. some (pushed trade c q)) >>= deliver_all rest))
        (sym e) (Delivered-more trade rest c q (deliver_all rest (pushed trade c q)) e fits ih)
]

-- With the map of `create_tasks_map` for its queues, the client puts the trades of a message at the end
-- of the two queues of their symbols, in their order, and leaves the other queues alone. It throws only
-- where a trade of the message is of a symbol without queues.
pub deliver_all-create_tasks_map :
    (symbols : List String) (trades : List TradeData) (c : Client)
    → 0 < length c.recording_queues
    → 0 < length c.statistics_queues
    → c.tasks_map
      ≡ create_tasks_map symbols (length c.recording_queues) (length c.statistics_queues)
    → Delivered trades c (deliver_all trades c)
unfolding create_tasks_map
deliver_all-create_tasks_map symbols trades c hr hs e =
    let r = length c.recording_queues in
    let s = length c.statistics_queues in
    deliver_all-Delivered trades c
      (subst (InRange r s) (sym e) (tasks_loop-InRange 0 r s symbols [] hr hs tt))
