-- ===== src/Recorder/Setup.antt =====
-- The set-up of the workers of RealTime_Embedded_Systems/src/worker_setup.hpp. A map from symbols is an
-- association list, and a queue that is shared is its index in the vector of queues.
pub mod Shares
use university_collection.Prelude.{
  ℕ, zero, suc, ◌+◌, ◌%◌, if◌then◌else◌, Option, none, some, List, [], ◌∷◌, ◌++◌,
}
use university_collection.Recorder.Config.{length}
use university_collection.Recorder.Trade.{TradeData}
use Prim.Native.String.{String}
use text.Mathlib.Text.{◌==◌ as str_eq}

module _ {ℓ} {V : Type ℓ} where
  -- `map[symbol] = value`
  unfoldable pub insert : String → V → List (String × V) → List (String × V)
  insert symbol value [] = (symbol, value) ∷ []
  insert symbol value ((other, old) ∷ rest) =
      let later = insert symbol value rest in
      if str_eq other symbol then (other, value) ∷ rest else (other, old) ∷ later

  -- `map.emplace(symbol, value)`
  unfoldable pub emplace : String → V → List (String × V) → List (String × V)
  emplace symbol value [] = (symbol, value) ∷ []
  emplace symbol value ((other, old) ∷ rest) =
      let later = emplace symbol value rest in
      if str_eq other symbol then (other, old) ∷ rest else (other, old) ∷ later

  unfoldable pub lookup : String → List (String × V) → Option V
  lookup symbol [] = none
  lookup symbol ((other, value) ∷ rest) =
      let later = lookup symbol rest in if str_eq other symbol then some value else later

  -- The loop of `create_data_container_map`, where `new` is the container of the given size.
  unfoldable pub containers : V → List String → List (String × V) → List (String × V)
  containers new [] m = m
  containers new (symbol ∷ rest) m = containers new rest (emplace symbol new m)

  unfoldable pub create_data_container_map : (ℕ → V) → List String → ℕ → List (String × V)
  create_data_container_map new symbols size = containers (new size) symbols []

-- `n` empty lists.
unfoldable pub empty_lists {ℓ} : {A : Type ℓ} → ℕ → List (List A)
empty_lists zero = []
empty_lists (suc n) = [] ∷ empty_lists n

unfoldable create_worker_queues : ℕ → List (List TradeData)
create_worker_queues worker_count = empty_lists worker_count

-- `v[i].push_back(x)`; there is nothing to do outside the vector, which the code does not reach.
unfoldable pub push_at {ℓ} : {A : Type ℓ} → ℕ → A → List (List A) → List (List A)
push_at i x [] = []
push_at zero x (l ∷ ls) = (l ++ (x ∷ [])) ∷ ls
push_at (suc i) x (l ∷ ls) = l ∷ push_at i x ls

-- The loop of `assign_symbols`, from index `i` on.
unfoldable pub assign_loop :
    (i worker_count : ℕ) → List String → List (List String) → List (List String)
assign_loop i worker_count [] assigned = assigned
assign_loop i worker_count (symbol ∷ rest) assigned =
    assign_loop (i + 1) worker_count rest (push_at (i % worker_count) symbol assigned)

unfoldable pub assign_symbols : List String → ℕ → List (List String)
assign_symbols symbols worker_count = assign_loop 0 worker_count symbols (empty_lists worker_count)

-- The two queues of a symbol, by index.
pub record TaskQueues : Type 0 where
  pub recording_queue : ℕ
  pub statistics_queue : ℕ

-- The loop of `create_tasks_map`, from index `i` on, for these numbers of queues. Without queues and with
-- a symbol the source divides by zero, so the theorems ask for at least one of each.
unfoldable pub tasks_loop :
    (i recording_count statistics_count : ℕ)
    → List String
    → List (String × TaskQueues)
    → List (String × TaskQueues)
tasks_loop i r s [] m = m
tasks_loop i r s (symbol ∷ rest) m =
    tasks_loop (i + 1) r s rest
      (insert symbol (record { recording_queue = i % r; statistics_queue = i % s }) m)

unfoldable pub create_tasks_map :
    List String → (recording_count statistics_count : ℕ) → List (String × TaskQueues)
create_tasks_map symbols r s = tasks_loop 0 r s symbols []

-- `v[i]`
abbrev pub get_elem? {ℓ} : {A : Type ℓ} → List A → ℕ → Option A
get_elem? [] i = none
get_elem? (x ∷ xs) zero = some x
get_elem? (x ∷ xs) (suc i) = get_elem? xs i

-- The core of each worker from index `i` on; `none` leaves a worker where it is.
unfoldable affinity_from : (i : ℕ) → List ℕ → (workers : ℕ) → List (Option ℕ)
affinity_from i affinities zero = []
affinity_from i affinities (suc n) =
    get_elem? affinities (i % length affinities) ∷ affinity_from (i + 1) affinities n

unfoldable set_worker_affinities : (workers : ℕ) → List ℕ → List (Option ℕ)
set_worker_affinities workers affinities = affinity_from 0 affinities workers
