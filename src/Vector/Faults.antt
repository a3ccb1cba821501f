-- ===== src/Vector/Faults.antt =====
-- How a vector of vector.c begins, and what follows where memory runs out.
use university_collection.Prelude.{
  Option-cases, ℕ, ◌*◌, ◌≡◌, refl, sym, ap, ◌∙◌, ◌<◌, inl, inr, subst,
}
use university_collection.Prelude.{Option, true, false, ≡→==, ≢→==, ◌==◌, none, arith}
use university_collection.Vector.{Allocator, Vector, error, crash, fits, initial_capacity}
use university_collection.Vector.{block_of, start, resize, vector_init, vector_push_back}
use university_collection.Vector.Inv.{first, IsCapacity-le, Holds, Yields}

-- `vector_init` for elements whose first four fit an `int` gives an empty vector and returns 0; or it
-- returns -1 with no storage, which happens only where the allocation of four elements failed.
vector_init-Yields :
    (a : Allocator) (v : Vector) (s : ℕ) (at : ℕ → ℕ → ℕ)
    → s * initial_capacity < 2147483648
    → Yields s 0 at (a.malloc (s * initial_capacity) ≡ none) (vector_init a v s)
unfolding vector_init
vector_init-Yields a v s at small =
    let T = λ (o : Option (ℕ → ℕ)).
      Yields s 0 at (a.malloc (s * initial_capacity) ≡ none)
        (start v s (block_of (s * initial_capacity) o)) in
    let room : fits (s * initial_capacity) ≡ true = ground (arith, small) in
    rw room (elim (Option-cases (a.malloc (s * initial_capacity))) [
      | inl fails ↦ subst T (sym fails) (refl, fails)
      | inr (c, given) ↦ subst T (sym given) (record {
        stores = record {
          storage = record { len = s * initial_capacity; bytes = c };
          allocated = refl;
          length = refl;
          width = refl;
          count = refl;
          room = omega arith;
          doubled = first refl;
          element = λ k j hk hj. absurd (omega arith);
        };
        tight = inl refl;
      })
    ])

-- A caller that goes on after a failed `vector_push_back` is not safe: the new capacity is set though
-- there is no storage, so the next `vector_push_back` sees room for its value and copies it through
-- a NULL pointer.
vector_push_back_after_failure :
    (a b : Allocator) (s n : ℕ) (at : ℕ → ℕ → ℕ) (v : Vector) (value next : ℕ → ℕ)
    → Holds s v n at
    → n ≡ v.capacity
    → (v.capacity * 2 < 2147483648) × (s * (v.capacity * 2) < 2147483648)
    → a.realloc v.buf (v.elem_size * (v.capacity * 2)) ≡ none
    → (w : Vector) × (vector_push_back a v value ≡ error w) × (vector_push_back b w next ≡ crash)
unfolding vector_push_back resize
vector_push_back_after_failure a b s n at v value next h full small fails =
    let least = IsCapacity-le v.capacity h.stores.doubled in
    let at_end : (v.size == v.capacity) ≡ true = ≡→== v.size v.capacity (h.stores.count ∙ full) in
    let one : fits (v.capacity * 2) ≡ true = ground (arith, small) in
    let bytes : v.elem_size * (v.capacity * 2) ≡ s * (v.capacity * 2) =
      ap (λ w. w * (v.capacity * 2)) h.stores.width in
    let two : fits (v.elem_size * (v.capacity * 2)) ≡ true =
      ap fits bytes ∙ ground (arith, small) in
    let roomy : (v.size == (v.capacity * 2)) ≡ false =
      ≢→== v.size (v.capacity * 2) (λ e. omega (arith, e, least, h.stores.count, full)) in
    (
      record v { buf = none; capacity = v.capacity * 2 },
      rw (at_end, one, two, fails) refl,
      rw roomy refl,
    )
