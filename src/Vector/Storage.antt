-- ===== src/Vector/Storage.antt =====
-- Where the bytes of an element stand in the storage of vector.c.
use university_collection.Prelude.{
  ℕ, ◌+◌, ◌-◌, ◌*◌, ◌≤◌, ◌<◌, ◌≡◌, ap, ◌∙◌, inl, inr, Bool-cases, ==→≡,
}
use university_collection.Prelude.{ltb, ◌==◌, if◌then◌else◌, ==→≢, arith}
use native.Mathlib.Nat.{mul-le-mul_right, add-mul}
use university_collection.Vector.{copy_in, move_bytes}

-- `(k + 1) * s`, and an element is in the first `n` if its number is.
next_slot : (k s : ℕ) → (k + 1) * s ≡ k * s + s
next_slot k s = add-mul k 1 s ∙ ap (λ t. k * s + t) (let e : 1 * s ≡ s = omega arith in e)

slot_le : (k n s : ℕ) → k < n → k * s + s ≤ n * s
slot_le k n s h =
    let room : (k + 1) * s ≤ n * s = mul-le-mul_right s (let e : k + 1 ≤ n = omega arith in e) in
    omega (arith, room, next_slot k s)

pub slot_lt : (k n s j : ℕ) → k < n → j < s → k * s + j < n * s
slot_lt k n s j h hj = omega (arith, slot_le k n s h)

-- Copied behind `n` elements, `value` is the element `n`, and the others are as before.
pub copy_in-slot :
    (bytes value : ℕ → ℕ) (n s k j : ℕ)
    → k ≤ n
    → j < s
    → copy_in bytes (n * s) s value (k * s + j) ≡ (if k == n then value j else bytes (k * s + j))
copy_in-slot bytes value n s k j h hj = elim (Bool-cases (k == n)) [
  | inl same ↦
      let e : k * s ≡ n * s = ap (λ t. t * s) (==→≡ k n same) in
      let back : k * s + j - n * s ≡ j = omega (arith, e) in
      rw same (ground (arith, e, ap value back))
  | inr other ↦
      let before = slot_le k n s (omega (arith, ==→≢ k n other)) in
      rw other (ground (arith, before))
]

-- Moved down by one from `i + 1` on, the element `k` is the old one of that number or of the next.
pub move_bytes-slot :
    (bytes : ℕ → ℕ) (n s i k j : ℕ)
    → i < n
    → k + 1 < n
    → j < s
    → move_bytes bytes (i * s) ((i + 1) * s) ((n - i - 1) * s) (k * s + j)
      ≡ (if ltb k i then bytes (k * s + j) else bytes ((k + 1) * s + j))
move_bytes-slot bytes n s i k j hi hk hj = elim (Bool-cases (ltb k i)) [
  | inl under ↦
      let before = slot_le k i s (let e : k < i = ground arith in e) in
      rw under (ground (arith, before))
  | inr over ↦
      let low : i * s ≤ k * s = mul-le-mul_right s (let e : i ≤ k = ground arith in e) in
      let high = slot_lt k (n - 1) s j (omega arith) hj in
      let split : (n - 1) * s ≡ i * s + (n - i - 1) * s =
        ap (λ t. t * s) (let e : n - 1 ≡ i + (n - i - 1) = omega arith in e)
        ∙ add-mul i (n - i - 1) s in
      let place : (i + 1) * s + (k * s + j - i * s) ≡ (k + 1) * s + j =
        omega (arith, low, next_slot i s, next_slot k s) in
      rw over (ground (arith, low, high, split, ap bytes place))
]
