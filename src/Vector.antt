-- ===== src/Vector.antt =====
-- The growable array of Operating_Systems/05. Final/Memory Management/vector.c, down to the bytes of
-- its storage. `malloc` and `realloc` are parameters.
pub mod Storage
pub mod Inv
pub mod Take
pub mod Faults
mod Tests
use university_collection.Prelude.{
  Bool, ℕ, ◌+◌, ◌-◌, ◌*◌, ◌/◌, ◌<◌, ◌≡◌, ◌&&◌, ltb, leb, ◌==◌, if◌then◌else◌,
}
use university_collection.Prelude.{Option, none, some}
use university_collection.Prelude.Int.{ℤ, pos, negsuc}

-- A number of an `int`.
abbrev pub fits : ℕ → Bool
fits n = ltb n 2147483648

-- Allocated memory: its length in bytes, and its bytes.
pub record Block : Type 0 where
  pub len : ℕ
  pub bytes : ℕ → ℕ

-- The C library's allocation at one call: the bytes of the new block, or `none` for NULL. `realloc`
-- keeps the bytes up to the smaller one of the two lengths.
pub record Allocator : Type 0 where
  pub malloc : ℕ → Option (ℕ → ℕ)
  pub realloc : Option Block → ℕ → Option (ℕ → ℕ)
  pub realloc_keeps :
      (b : Block) (n : ℕ) (c : ℕ → ℕ) (i : ℕ)
      → realloc (some b) n ≡ some c
      → i < b.len
      → i < n
      → c i ≡ b.bytes i

-- `buf` is the source's `data`, `none` where that is NULL.
pub record Vector : Type 0 where
  pub buf : Option Block
  pub size : ℕ
  pub capacity : ℕ
  pub elem_size : ℕ

-- What a call comes to: it returns 0, or it returns -1, or it copies through a NULL pointer, or a product
-- is past the largest `int`, which the language leaves undefined.
pub data Outcome : Type 0 where
  ok : Vector → Outcome
  error : Vector → Outcome
  crash : Outcome
  overflow : Outcome

abbrev pub initial_capacity : ℕ
initial_capacity = 4

-- `memcpy` of `n` bytes of `value` to the place `to`, and to `out`.
abbrev pub copy_in : (ℕ → ℕ) → (to n : ℕ) → (ℕ → ℕ) → ℕ → ℕ
copy_in bytes to n value i = if leb to i && ltb i (to + n) then value (i - to) else bytes i

abbrev pub copy_out : (ℕ → ℕ) → (from n : ℕ) → (ℕ → ℕ) → ℕ → ℕ
copy_out bytes from n out i = if ltb i n then bytes (from + i) else out i

-- `memmove` of `n` bytes inside a block.
abbrev pub move_bytes : (ℕ → ℕ) → (to from n : ℕ) → ℕ → ℕ
move_bytes bytes to from n i =
    if leb to i && ltb i (to + n) then bytes (from + (i - to)) else bytes i

abbrev pub block_of : ℕ → Option (ℕ → ℕ) → Option Block
block_of n none = none
block_of n (some c) = some (record { len = n; bytes = c })

-- `vector_init` with the storage that it got.
abbrev pub start : Vector → ℕ → Option Block → Outcome
start v elem_size none = error (record v { elem_size = elem_size; buf = none })
start v elem_size (some b) =
    ok (record { buf = some b; size = 0; capacity = initial_capacity; elem_size = elem_size })

unfoldable pub vector_init : Allocator → Vector → ℕ → Outcome
vector_init a v elem_size =
    if fits (elem_size * initial_capacity)
    then start v elem_size
        (block_of (elem_size * initial_capacity) (a.malloc (elem_size * initial_capacity)))
    else overflow

unfoldable vector_destroy : Vector → Vector
vector_destroy v = record { buf = none; size = 0; capacity = 0; elem_size = 0 }

-- The new capacity is set before the allocation can fail. The products are those of an `int`:
-- `vector_push_back` tests that they fit, and the other operations only make the capacity smaller.
unfoldable pub resize : Allocator → ℕ → Vector → Vector
resize a capacity v = record v {
  buf = block_of (v.elem_size * capacity) (a.realloc v.buf (v.elem_size * capacity));
  capacity = capacity;
}

abbrev pub if_allocated : Vector → Option Block → (Vector → Outcome) → Outcome
if_allocated v none next = error v
if_allocated v (some b) next = next v

-- `memcpy` behind the last element, and the new size.
abbrev pub append : Vector → Option Block → (ℕ → ℕ) → Outcome
append v none value = crash
append v (some b) value = ok (record v {
  buf = some (record b { bytes = copy_in b.bytes (v.size * v.elem_size) v.elem_size value });
  size = v.size + 1;
})

unfoldable pub vector_push_back : Allocator → Vector → (ℕ → ℕ) → Outcome
unfolding resize
vector_push_back a v value =
    let grown = resize a (v.capacity * 2) v in
    if v.size == v.capacity
    then (if fits (v.capacity * 2) && fits (v.elem_size * (v.capacity * 2))
        then if_allocated grown grown.buf (λ w. append w w.buf value)
        else overflow)
    else append v v.buf value

-- The end of `vector_pop` and `vector_remove`.
unfoldable pub shrink : Allocator → Vector → Outcome
unfolding resize
shrink a v =
    let smaller = resize a (v.capacity / 2) v in
    if ltb v.size (v.capacity / 2) && ltb initial_capacity v.capacity
    then if_allocated smaller smaller.buf ok
    else ok v

abbrev pub take_last : Allocator → Vector → Option Block → (ℕ → ℕ) → Outcome × (ℕ → ℕ)
take_last a v none out = (crash, out)
take_last a v (some b) out = (shrink a v, copy_out b.bytes (v.size * v.elem_size) v.elem_size out)

-- Beside the outcome: what `out` points to.
unfoldable pub vector_pop : Allocator → Vector → (ℕ → ℕ) → Outcome × (ℕ → ℕ)
unfolding shrink
vector_pop a v out =
    if v.size == 0 then (error v, out) else take_last a (record v { size = v.size - 1 }) v.buf out

abbrev pub close_gap : Allocator → Vector → Option Block → ℕ → Outcome
close_gap a v none index = crash
close_gap a v (some b) index = shrink a (record v {
  buf = some (record b {
    bytes =
        move_bytes b.bytes (index * v.elem_size) ((index + 1) * v.elem_size)
          ((v.size - index - 1) * v.elem_size);
  });
  size = v.size - 1;
})

unfoldable pub vector_remove : Allocator → Vector → ℤ → Outcome
unfolding shrink
vector_remove a v (negsuc i) = error v
vector_remove a v (pos i) = if leb v.size i then error v else close_gap a v v.buf i
