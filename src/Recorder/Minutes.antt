-- ===== src/Recorder/Minutes.antt =====
-- The maps from an exact minute of RealTime_Embedded_Systems/src/finnhub_data.cpp, as lists of entries in
-- the order of iteration.
use university_collection.Prelude.{
  ℕ, zero, suc, ◌+◌, ◌*◌, ◌≤◌, ◌<◌, ◌≡◌, ◌≢◌, refl, ap, ◌∙◌, inl, inr,
}
use university_collection.Prelude.{
  Bool, true, false, ltb, ◌==◌, if◌then◌else◌, Bool-cases, Option, none, some, List, [], ◌∷◌, arith,
}
use university_collection.Recorder.Clock.{ms_in_min}

false-ne-true : false ≡ true → ⊥
false-ne-true h = cc

module _ {ℓ} {A : Type ℓ} where
  -- `map[k]` and a change of the value there, which is `new` where the key is missing.
  unfoldable pub change : A → (A → A) → ℕ → List (ℕ × A) → List (ℕ × A)
  change new f k [] = (k, f new) ∷ []
  change new f k ((j, a) ∷ m) = if j == k then (j, f a) ∷ m else (j, a) ∷ change new f k m

  -- `map.find(k)`
  unfoldable pub find : ℕ → List (ℕ × A) → Option A
  find k [] = none
  find k ((j, a) ∷ m) = if j == k then some a else find k m

  -- `map[k]`, only to read.
  unfoldable pub at : A → ℕ → List (ℕ × A) → A
  at new k [] = new
  at new k ((j, a) ∷ m) = if j == k then a else at new k m

  -- `map.size()`
  abbrev pub size : List (ℕ × A) → ℕ
  size [] = 0
  size (e ∷ m) = suc (size m)

  -- The entries of a minute from `threshold` on.
  abbrev pub recent : ℕ → List (ℕ × A) → List (ℕ × A)
  recent threshold [] = []
  recent threshold ((j, a) ∷ m) =
      if ltb j threshold then recent threshold m else (j, a) ∷ recent threshold m

  pub at-change :
      (new : A) (f : A → A) (k j : ℕ) (m : List (ℕ × A))
      → at new j (change new f k m) ≡ (if k == j then f (at new j m) else at new j m)
  unfolding at change
  at-change new f k j [] = refl
  at-change new f k j ((i, a) ∷ m) = ground (arith, at-change new f k j m)

  pub recent-change :
      (threshold : ℕ) (new : A) (f : A → A) (k : ℕ) (m : List (ℕ × A))
      → recent threshold (change new f k m)
        ≡ (if ltb k threshold then recent threshold m else change new f k (recent threshold m))
  unfolding change
  recent-change threshold new f k [] = refl
  recent-change threshold new f k ((j, a) ∷ m) = ground (arith, recent-change threshold new f k m)

  -- A key that stands in the map.
  abbrev pub present : ℕ → List (ℕ × A) → Bool
  present k [] = false
  present k ((j, a) ∷ m) = if j == k then true else present k m

  abbrev without : ℕ → List (ℕ × A) → List (ℕ × A)
  without k [] = []
  without k ((j, a) ∷ m) = if j == k then without k m else (j, a) ∷ without k m

  size-without_le : (k : ℕ) (m : List (ℕ × A)) → size (without k m) ≤ size m
  size-without_le k [] = omega arith
  size-without_le k ((j, a) ∷ m) = ground (arith, size-without_le k m)

  size-without : (k : ℕ) (m : List (ℕ × A)) → present k m ≡ true → size (without k m) < size m
  size-without k [] h = absurd (false-ne-true h)
  size-without k ((j, a) ∷ m) h = elim (Bool-cases (j == k)) [
    | inl e ↦ rw e (omega (arith, size-without_le k m))
    | inr e ↦
        let p : present k m ≡ true = ground (arith, h, e) in
        rw e (omega (arith, size-without k m p))
  ]

  present-without : (k j : ℕ) (m : List (ℕ × A)) → j ≢ k → present j (without k m) ≡ present j m
  present-without k j [] h = refl
  present-without k j ((i, a) ∷ m) h = ground (arith, h, present-without k j m h)

  -- With `n` minutes on end from `base` on and one before them, there are more than `n` entries.
  pub size-present :
      (n base old : ℕ) (m : List (ℕ × A))
      → old < base
      → present old m ≡ true
      → ((i : ℕ) → i < n → present (base + i * ms_in_min) m ≡ true)
      → n < size m
  size-present zero base old m h p all = omega (arith, size-without old m p)
  size-present (suc n) base old m h p all =
      let k = base + n * ms_in_min in
      let fewer = size-without k m (all n (omega arith)) in
      let more : n < size (without k m) =
        size-present n base old (without k m) h (present-without k old m (omega (arith, h)) ∙ p)
          (λ i lt.
            present-without k (base + i * ms_in_min) m (omega (arith, lt))
            ∙ all i (omega (arith, lt))) in
      omega (arith, fewer, more)

  -- If all the minutes are from the threshold on, nothing is left out.
  pub recent_all :
      (threshold : ℕ) (m : List (ℕ × A))
      → ((j : ℕ) → present j m ≡ true → threshold ≤ j)
      → recent threshold m ≡ m
  recent_all threshold [] h = refl
  recent_all threshold ((j, a) ∷ m) h =
      let here : threshold ≤ j = h j (ground arith) in
      let keep : ltb j threshold ≡ false = ground (arith, here) in
      rw keep (
        ap (λ l. (j, a) ∷ l)
          (recent_all threshold m
            (λ i p. h i (elim (Bool-cases (j == i)) [ inl e ↦ rw e refl | inr e ↦ rw e p ]))))
