-- ===== src/Recorder/Setup/Shares.antt =====
-- How RealTime_Embedded_Systems/src/worker_setup.hpp shares the symbols out among the workers.
use university_collection.Prelude.{ℕ, zero, suc, ◌+◌, ◌%◌, ◌<◌, ◌≡◌, ◌≢◌, refl, ap}
use university_collection.Prelude.{◌==◌, if◌then◌else◌, List, [], ◌∷◌, ◌++◌, arith}
use university_collection.Recorder.Config.{length}
use university_collection.Recorder.Setup.{push_at}
use Prim.Native.String.{String}
use text.Mathlib.Text.{◌==◌ as str_eq}

-- `v[i]`, where it is there.
abbrev pub share_of {ℓ} : {A : Type ℓ} → ℕ → List (List A) → List A
share_of w [] = []
share_of zero (l ∷ ls) = l
share_of (suc w) (l ∷ ls) = share_of w ls

-- The symbols whose index, counted from `i`, leaves `w` when it is divided by `n`.
abbrev pub every_nth : (w n i : ℕ) → List String → List String
every_nth w n i [] = []
every_nth w n i (symbol ∷ rest) =
    let later = every_nth w n (i + 1) rest in if i % n == w then symbol ∷ later else later

pub share_of-push_at {ℓ} :
    {A : Type ℓ} (w i : ℕ) (x : A) (ls : List (List A))
    → i < length ls
    → share_of w (push_at i x ls) ≡ (if i == w then share_of w ls ++ (x ∷ []) else share_of w ls)
unfolding push_at
share_of-push_at w zero x [] h = absurd (omega (arith, h))
share_of-push_at w (suc i) x [] h = absurd (omega (arith, h))
share_of-push_at zero zero x (l ∷ ls) h = refl
share_of-push_at (suc w) zero x (l ∷ ls) h = ground arith
share_of-push_at zero (suc i) x (l ∷ ls) h = ground arith
share_of-push_at (suc w) (suc i) x (l ∷ ls) h =
    ground (arith, share_of-push_at w i x ls (omega (arith, h)))

pub length-push_at {ℓ} :
    {A : Type ℓ} (i : ℕ) (x : A) (ls : List (List A)) → length (push_at i x ls) ≡ length ls
unfolding push_at
length-push_at zero x [] = refl
length-push_at (suc i) x [] = refl
length-push_at zero x (l ∷ ls) = refl
length-push_at (suc i) x (l ∷ ls) = ap suc (length-push_at i x ls)

-- The symbols of a list are all different from `k`.
abbrev Absent : String → List String → Type 0
Absent k [] = Unit
Absent k (x ∷ rest) = (x ≢ k) × Absent k rest
