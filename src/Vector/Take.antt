-- ===== src/Vector/Take.antt =====
-- What `vector_pop` and `vector_remove` of vector.c make of the elements.
use university_collection.Prelude.{
  ℕ, ◌+◌, ◌-◌, ◌*◌, ◌/◌, ◌%◌, ◌≤◌, ◌<◌, ◌≡◌, refl, ap, sym, ◌∙◌, inr,
}
use university_collection.Prelude.{true, false, ≡→==, ≢→==, ltb, leb, ◌==◌, ◌&&◌, subst}
use university_collection.Prelude.{if◌then◌else◌, if_elim, arith}
use university_collection.Prelude.Int.{pos, negsuc}
use university_collection.Vector.{Allocator, Vector, Outcome, ok, error, initial_capacity}
use university_collection.Vector.{copy_out, move_bytes, resize, take_last, close_gap}
use university_collection.Vector.{shrink, vector_pop, vector_remove}
use university_collection.Vector.Storage.{move_bytes-slot}
use university_collection.Vector.Inv.{
  IsCapacity, first, twice, IsCapacity-le, Stores, Tight, Holds, Fails,
}
use university_collection.Vector.Inv.{Yields, resize-Fails, resize-Stores, if_allocated-cases}

IsCapacity-even : (c : ℕ) → IsCapacity c → c % 2 ≡ 0
IsCapacity-even c (first e) = omega (arith, e)
IsCapacity-even c (twice d i e) = omega (arith, e)

IsCapacity-half : (c : ℕ) → IsCapacity c → initial_capacity < c → IsCapacity (c / 2)
IsCapacity-half c (first e) h = absurd (omega (arith, e))
IsCapacity-half c (twice d i e) h = subst IsCapacity (let q : d ≡ c / 2 = omega (arith, e) in q) i

-- After one element is gone, `shrink` makes the capacity fit again.
shrink-Yields :
    (a : Allocator) (s n : ℕ) (at : ℕ → ℕ → ℕ) (v : Vector)
    → Stores s v n at
    → Tight v.capacity (n + 1)
    → Yields s n at (Fails a (s * (v.capacity / 2))) (shrink a v)
unfolding shrink
shrink-Yields a s n at v h t =
    let T = Yields s n at (Fails a (s * (v.capacity / 2))) in
    let least = IsCapacity-le v.capacity h.doubled in
    if_elim T (ltb v.size (v.capacity / 2) && ltb initial_capacity v.capacity) _ _
      (λ wide.
        let below : v.size < v.capacity / 2 = ground arith in
        let large : initial_capacity < v.capacity = ground arith in
        let half = IsCapacity-half v.capacity h.doubled large in
        let half_le = IsCapacity-le (v.capacity / 2) half in
        if_allocated-cases T (resize a (v.capacity / 2) v) ok
          (λ lost. (lost, resize-Fails a s n at v (v.capacity / 2) h lost))
          (λ b kept. record {
            stores =
                resize-Stores a s n at v (v.capacity / 2) h b kept (omega (arith, h.count, below))
                  half;
            tight = inr (omega (arith, t, h.count, below, large, half_le));
          }))
      (λ narrow. record {
        stores = h;
        tight = ground (arith, t, h.count, IsCapacity-even v.capacity h.doubled, least);
      })

-- `vector_pop` of an empty vector returns -1 and changes nothing. Otherwise it copies the last element
-- to `out`, all its bytes and no more, takes it off and returns 0; or it returns -1 and the storage
-- is lost, which happens only where an allocation of half the bytes failed.
pub vector_pop-Yields :
    (a : Allocator) (s n : ℕ) (at : ℕ → ℕ → ℕ) (v : Vector) (out : ℕ → ℕ)
    → Holds s v n at
    → (n ≡ 0 → vector_pop a v out ≡ (error v, out))
      × ((m : ℕ)
          → n ≡ m + 1
          → Yields s m at (Fails a (s * (v.capacity / 2))) (vector_pop a v out).0
            × ((j : ℕ) → (vector_pop a v out).1 j ≡ (if ltb j s then at m j else out j)))
unfolding vector_pop
vector_pop-Yields a s n at v out h = (
  λ e. rw (≡→== v.size 0 (h.stores.count ∙ e)) refl,
  λ m e.
      let some_left : (v.size == 0) ≡ false =
        ≢→== v.size 0 (λ z. omega (arith, h.stores.count, e, z)) in
      let rest : Stores s (record v { size = v.size - 1 }) m at = record {
        storage = h.stores.storage;
        allocated = h.stores.allocated;
        length = h.stores.length;
        width = h.stores.width;
        count = omega (arith, h.stores.count, e);
        room = omega (arith, h.stores.room, e);
        doubled = h.stores.doubled;
        element = λ k j hk hj. h.stores.element k j (omega (arith, e)) hj;
      } in
      let P = λ (o : Outcome × (ℕ → ℕ)).
        Yields s m at (Fails a (s * (v.capacity / 2))) o.0
        × ((j : ℕ) → o.1 j ≡ (if ltb j s then at m j else out j)) in
      rw some_left (
        subst (λ b. P (take_last a (record v { size = v.size - 1 }) b out)) (sym h.stores.allocated)
          (
            shrink-Yields a s m at (record v { size = v.size - 1 }) rest
                (omega (arith, h.tight, e)),
            λ j.
                ap (λ w. copy_out h.stores.storage.bytes ((v.size - 1) * w) w out j) h.stores.width
                ∙ ap (λ c. copy_out h.stores.storage.bytes (c * s) s out j) rest.count
                ∙ ground (arith, h.stores.element m j (omega (arith, e))),
          )),
)

-- `vector_remove` at an index that is negative or past the last element returns -1 and changes
-- nothing. Otherwise it takes that element out, the later ones follow down by one, and it returns 0;
-- or it returns -1 and the storage is lost, which happens only where an allocation of half the bytes
-- failed.
pub vector_remove-Yields :
    (a : Allocator) (s n : ℕ) (at : ℕ → ℕ → ℕ) (v : Vector) (i : ℕ)
    → Holds s v n at
    → (vector_remove a v (negsuc i) ≡ error v)
      × (n ≤ i → vector_remove a v (pos i) ≡ error v)
      × (i < n
          → Yields s
              (n - 1)
              (λ k j. if ltb k i then at k j else at (k + 1) j)
              (Fails a (s * (v.capacity / 2)))
              (vector_remove a v (pos i)))
unfolding vector_remove
vector_remove-Yields a s n at v i h = (
  refl,
  λ past. rw (let e : leb v.size i ≡ true = ground (arith, h.stores.count) in e) refl,
  λ inside. rw (let e : leb v.size i ≡ false = ground (arith, h.stores.count) in e) (
      subst
        (λ b.
          Yields s (n - 1) (λ k j. if ltb k i then at k j else at (k + 1) j)
            (Fails a (s * (v.capacity / 2))) (close_gap a v b i))
        (sym h.stores.allocated)
        (shrink-Yields a s (n - 1) _ _
          (record {
            storage = record h.stores.storage {
              bytes =
                  move_bytes h.stores.storage.bytes (i * v.elem_size) ((i + 1) * v.elem_size)
                    ((v.size - i - 1) * v.elem_size);
            };
            allocated = refl;
            length = h.stores.length;
            width = h.stores.width;
            count = ap (λ m. m - 1) h.stores.count;
            room = omega (arith, h.stores.room);
            doubled = h.stores.doubled;
            element = λ k j hk hj.
                ap
                  (λ w.
                    move_bytes h.stores.storage.bytes (i * w) ((i + 1) * w) ((v.size - i - 1) * w)
                      (k * s + j))
                  h.stores.width
                ∙ ap
                    (λ m.
                      move_bytes h.stores.storage.bytes (i * s) ((i + 1) * s) ((m - i - 1) * s)
                        (k * s + j))
                    h.stores.count
                ∙ move_bytes-slot h.stores.storage.bytes n s i k j inside (omega arith) hj
                ∙ ground (
                  arith,
                  h.stores.element k j (omega arith) hj,
                  h.stores.element (k + 1) j (omega arith) hj,
                );
          })
          (omega (arith, h.tight)))),
)
