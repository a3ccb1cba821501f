-- ===== src/Prelude/Int.antt =====
-- A C `int` that may go below zero: `negsuc n` is -(n + 1).
use Prim.Native.Nat.{ℕ, zero, suc, ◌+◌, ◌-◌}
use university_collection.Prelude.Tests.{◌==◌, if◌then◌else◌}
use mathlib.Core.Bool.{Bool, true, false}
use mathlib.Core.Path.{◌≡◌}
use native.Mathlib.Omega.{arith}

pub data ℤ : Type 0 where
  pos : ℕ → ℤ
  negsuc : ℕ → ℤ

-- `n - 1`
unfoldable pub decr : ℤ → ℤ
decr (pos n) = if n == 0 then negsuc 0 else pos (n - 1)
decr (negsuc n) = negsuc (n + 1)

-- `n + 1`
unfoldable pub incr : ℤ → ℤ
incr (pos n) = pos (n + 1)
incr (negsuc zero) = pos 0
incr (negsuc (suc n)) = negsuc n

-- `n <= 0`
unfoldable pub is_spent : ℤ → Bool
is_spent (pos n) = n == 0
is_spent (negsuc n) = true

pub decr-pos : (n : ℕ) → decr (pos (n + 1)) ≡ pos n
unfolding decr
decr-pos n =
    let more : ((n + 1) == 0) ≡ false = ground arith in
    let back : n + 1 - 1 ≡ n = omega arith in rw (more, back)

pub is_spent-pos : (n : ℕ) → is_spent (pos (n + 1)) ≡ false
unfolding is_spent
is_spent-pos n = ground arith
