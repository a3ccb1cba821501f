-- ===== src/Vector/Inv.antt =====
-- What the operations of vector.c make of the elements, with what happens where memory runs out.
use university_collection.Prelude.{
  Option-cases, ℕ, ◌+◌, ◌*◌, ◌≤◌, ◌<◌, ◌≡◌, refl, ap, sym, ◌∙◌, ◌⊎◌, inl, inr,
}
use university_collection.Prelude.{==→≡, ==→≢, ◌==◌, true}
use university_collection.Prelude.{subst, if◌then◌else◌, if_elim, Option, none, some, arith}
use university_collection.Vector.{
  Block, Allocator, Vector, Outcome, ok, error, crash, overflow, fits, initial_capacity,
}
use university_collection.Vector.{copy_in, block_of, resize, if_allocated, append}
use university_collection.Vector.{vector_push_back}
use native.Mathlib.Nat.{mul_comm}
use university_collection.Vector.Storage.{slot_lt, copy_in-slot}

-- The initial capacity, doubled any number of times.
pub data IsCapacity : ℕ → Type 0 where
  first : {c : ℕ} → c ≡ initial_capacity → IsCapacity c
  twice : {c : ℕ} (d : ℕ) → IsCapacity d → c ≡ d * 2 → IsCapacity c

pub IsCapacity-le : (c : ℕ) → IsCapacity c → initial_capacity ≤ c
IsCapacity-le c (first e) = omega (arith, e)
IsCapacity-le c (twice d i e) = omega (arith, e, IsCapacity-le d i)

-- The vector stores `n` elements of `s` bytes: byte `j` of element `k` is `at k j`.
pub record Stores (s : ℕ) (v : Vector) (n : ℕ) (at : ℕ → ℕ → ℕ) : Type 0 where
  pub storage : Block
  pub allocated : v.buf ≡ some storage
  pub length : storage.len ≡ s * v.capacity
  pub width : v.elem_size ≡ s
  pub count : v.size ≡ n
  pub room : n ≤ v.capacity
  pub doubled : IsCapacity v.capacity
  pub element : (k j : ℕ) → k < n → j < s → storage.bytes (k * s + j) ≡ at k j

-- Above the initial capacity, `c` has room for no more than twice the `n` elements.
abbrev pub Tight : (c n : ℕ) → Type 0
Tight c n = (c ≡ initial_capacity) ⊎ (c ≤ 2 * n)

pub record Holds (s : ℕ) (v : Vector) (n : ℕ) (at : ℕ → ℕ → ℕ) : Type 0 where
  pub stores : Stores s v n at
  pub tight : Tight v.capacity n

-- Some allocation of `n` bytes fails.
abbrev pub Fails : Allocator → ℕ → Type 0
Fails a n = (b : Option Block) × (a.realloc b n ≡ none)

-- The operation returns 0 with these elements, or -1 with no storage for the reason `lost`.
abbrev pub Yields : (s n : ℕ) → (ℕ → ℕ → ℕ) → Type 0 → Outcome → Type 0
Yields s n at lost (ok w) = Holds s w n at
Yields s n at lost (error w) = (w.buf ≡ none) × lost
Yields s n at lost crash = ⊥
Yields s n at lost overflow = ⊥

module _ (a : Allocator) (s n : ℕ) (at : ℕ → ℕ → ℕ) (v : Vector) where
  -- The storage after `resize` is NULL only if the allocation fails.
  pub resize-Fails : (d : ℕ) → Stores s v n at → (resize a d v).buf ≡ none → Fails a (s * d)
  unfolding resize
  resize-Fails d h lost = elim (Option-cases (a.realloc v.buf (v.elem_size * d))) [
    | inl fails ↦ (v.buf, ap (λ w. a.realloc v.buf (w * d)) (sym h.width) ∙ fails)
    | inr (c, given) ↦ absurd (ground (arith, lost, given))
  ]

  pub resize-Stores :
      (d : ℕ)
      → Stores s v n at
      → (b : Block) → (resize a d v).buf ≡ some b
      → n ≤ d
      → IsCapacity d
      → Stores s (resize a d v) n at
  unfolding resize
  resize-Stores d h b some_storage room doubled =
      elim (Option-cases (a.realloc v.buf (v.elem_size * d))) [
        | inl fails ↦ absurd (ground (arith, some_storage, fails))
        | inr (c, given) ↦
            let kept = subst (λ o. a.realloc o (v.elem_size * d) ≡ some c) h.allocated given in
            record {
              storage = record { len = v.elem_size * d; bytes = c };
              allocated = ap (block_of (v.elem_size * d)) given;
              length = ap (λ w. w * d) h.width;
              width = h.width;
              count = h.count;
              room = room;
              doubled = doubled;
              element = λ k j hk hj.
                  a.realloc_keeps h.storage (v.elem_size * d) c (k * s + j) kept
                    (omega (
                      arith,
                      h.length,
                      h.room,
                      mul_comm s v.capacity,
                      slot_lt k v.capacity s j (omega (arith, h.room)) hj,
                    ))
                    (omega (
                      arith,
                      ap (λ w. w * d) h.width,
                      mul_comm s d,
                      slot_lt k d s j (omega arith) hj,
                    ))
                  ∙ h.element k j hk hj;
            }
      ]

  append-Holds :
      (value : ℕ → ℕ) (lost : Type 0)
      → Holds s v n at
      → n < v.capacity
      → Yields s (n + 1) (λ k j. if k == n then value j else at k j) lost (append v v.buf value)
  append-Holds value lost h free =
      subst
        (λ b. Yields s (n + 1) (λ k j. if k == n then value j else at k j) lost (append v b value))
        (sym h.stores.allocated)
        (record {
          tight = omega (arith, h.tight);
          stores = record {
            storage = record h.stores.storage {
              bytes = copy_in h.stores.storage.bytes (v.size * v.elem_size) v.elem_size value;
            };
            allocated = refl;
            length = h.stores.length;
            width = h.stores.width;
            count = ap (λ m. m + 1) h.stores.count;
            room = omega (arith, free);
            doubled = h.stores.doubled;
            element = λ k j hk hj.
                ap
                  (λ m.
                    copy_in h.stores.storage.bytes (m * v.elem_size) v.elem_size value (k * s + j))
                  h.stores.count
                ∙ ap (λ w. copy_in h.stores.storage.bytes (n * w) w value (k * s + j))
                    h.stores.width
                ∙ copy_in-slot h.stores.storage.bytes value n s k j (omega arith) hj
                ∙ ground (arith, h.stores.element k j);
          };
        })

pub if_allocated-cases {ℓ} :
    (T : Outcome → Type ℓ) (w : Vector) (next : Vector → Outcome)
    → (w.buf ≡ none → T (error w))
    → ((b : Block) → w.buf ≡ some b → T (next w))
    → T (if_allocated w w.buf next)
if_allocated-cases T w next lost kept = elim (Option-cases w.buf) [
  | inl e ↦ subst (λ b. T (if_allocated w b next)) (sym e) (lost e)
  | inr (b, e) ↦ subst (λ o. T (if_allocated w o next)) (sym e) (kept b e)
]

-- `vector_push_back` of a vector that stores `n` elements, and whose doubled capacity and its bytes fit an
-- `int` where it is full: it adds the value behind the elements and returns 0; or it returns -1 and the
-- storage is lost, which happens only where the vector was full and an allocation of twice the bytes
-- failed. It does not copy through a NULL pointer.
pub vector_push_back-Yields :
    (a : Allocator) (s n : ℕ) (at : ℕ → ℕ → ℕ) (v : Vector) (value : ℕ → ℕ)
    → Holds s v n at
    → (n ≡ v.capacity → (v.capacity * 2 < 2147483648) × (s * (v.capacity * 2) < 2147483648))
    → Yields s
        (n + 1)
        (λ k j. if k == n then value j else at k j)
        ((n ≡ v.capacity) × Fails a (s * (v.capacity * 2)))
        (vector_push_back a v value)
unfolding vector_push_back
vector_push_back-Yields a s n at v value h small =
    let T =
      Yields s (n + 1) (λ k j. if k == n then value j else at k j)
        ((n ≡ v.capacity) × Fails a (s * (v.capacity * 2))) in
    let grown = resize a (v.capacity * 2) v in
    if_elim T (v.size == v.capacity) _ _
      (λ full.
        let e : n ≡ v.capacity = sym h.stores.count ∙ ==→≡ v.size v.capacity full in
        let least = IsCapacity-le v.capacity h.stores.doubled in
        let more : n < v.capacity * 2 = omega (arith, e, least) in
        let one : fits (v.capacity * 2) ≡ true = ground (arith, small e) in
        let bytes : v.elem_size * (v.capacity * 2) ≡ s * (v.capacity * 2) =
          ap (λ w. w * (v.capacity * 2)) h.stores.width in
        let two : fits (v.elem_size * (v.capacity * 2)) ≡ true =
          ap fits bytes ∙ ground (arith, small e) in
        rw (one, two)
          (if_allocated-cases T grown (λ w. append w w.buf value)
            (λ lost. (lost, (e, resize-Fails a s n at v (v.capacity * 2) h.stores lost)))
            (λ b kept.
              append-Holds a s n at grown value _
                (record {
                  stores =
                      resize-Stores a s n at v (v.capacity * 2) h.stores b kept (omega (arith, e))
                        (twice v.capacity h.stores.doubled refl);
                  tight = inr (omega (arith, e));
                })
                more)))
      (λ free.
        let ne = ==→≢ v.size v.capacity free in
        append-Holds a s n at v value _ h (omega (arith, ne, h.stores.count, h.stores.room)))
