-- ===== src/Vector/Tests.antt =====
-- The theorems about vector.c for elements of two bytes.
use university_collection.Prelude.{
  ℕ, ◌+◌, ◌-◌, ◌/◌, ◌<◌, ◌≤◌, ◌≡◌, refl, sym, ap, inl, ltb, ◌==◌, if◌then◌else◌,
}
use university_collection.Prelude.{Option, none, some, arith}
use university_collection.Prelude.Int.{pos, negsuc}
use university_collection.Vector.{Block, Allocator, Vector, error}
use university_collection.Vector.{vector_push_back, vector_pop, vector_remove}
use university_collection.Vector.Inv.{first, Holds, Fails, Yields, vector_push_back-Yields}
use university_collection.Vector.Take.{vector_pop-Yields, vector_remove-Yields}

abbrev old_bytes : Option Block → ℕ → ℕ
old_bytes none i = 0
old_bytes (some b) i = b.bytes i

abbrev bytes_or_zero : Option (ℕ → ℕ) → ℕ → ℕ
bytes_or_zero none i = 0
bytes_or_zero (some c) i = c i

-- Memory without end.
plenty_keeps :
    (b : Block) (n : ℕ) (c : ℕ → ℕ) (i : ℕ)
    → some (old_bytes (some b)) ≡ some c
    → i < b.len
    → i < n
    → c i ≡ b.bytes i
plenty_keeps b n c i e h k = ap (λ o. bytes_or_zero o i) (sym e)

abbrev plenty : Allocator
plenty = record {
  malloc = λ n. some (λ i. 0);
  realloc = λ b n. some (old_bytes b);
  realloc_keeps = plenty_keeps;
}

-- Four elements, `k` in both bytes.
abbrev pairs : ℕ → ℕ → ℕ
pairs k j = k

abbrev four : Vector
four = record {
  buf = some (record { len = 8; bytes = λ i. i / 2 });
  size = 4;
  capacity = 4;
  elem_size = 2;
}

four-Holds : Holds 2 four 4 pairs
four-Holds = record {
  stores = record {
    storage = record { len = 8; bytes = λ i. i / 2 };
    allocated = refl;
    length = refl;
    width = refl;
    count = refl;
    room = omega arith;
    doubled = first refl;
    element = λ k j hk hj. omega arith;
  };
  tight = inl refl;
}

vector_push_back-Yields_example :
    Yields 2 5
      (λ k j. if k == 4 then 9 else k)
      ((4 ≡ four.capacity) × Fails plenty 16)
      (vector_push_back plenty four (λ j. 9))
vector_push_back-Yields_example =
    vector_push_back-Yields plenty 2 4 pairs four (λ j. 9) four-Holds (λ e. omega arith)

vector_pop-Yields_example :
    (four.size ≡ 0 → vector_pop plenty four (λ j. 7) ≡ (error four, λ j. 7))
    × ((m : ℕ)
        → four.size ≡ m + 1
        → Yields 2 m pairs (Fails plenty 4) (vector_pop plenty four (λ j. 7)).0
          × ((j : ℕ) → (vector_pop plenty four (λ j. 7)).1 j ≡ (if ltb j 2 then m else 7)))
vector_pop-Yields_example = vector_pop-Yields plenty 2 4 pairs four (λ j. 7) four-Holds

vector_remove-Yields_example :
    (vector_remove plenty four (negsuc 1) ≡ error four)
    × (four.size ≤ 1 → vector_remove plenty four (pos 1) ≡ error four)
    × (1 < four.size
        → Yields 2
            (4 - 1)
            (λ k j. if ltb k 1 then k else k + 1)
            (Fails plenty 4)
            (vector_remove plenty four (pos 1)))
vector_remove-Yields_example = vector_remove-Yields plenty 2 4 pairs four 1 four-Holds
