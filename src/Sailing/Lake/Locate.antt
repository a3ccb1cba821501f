-- ===== src/Sailing/Lake/Locate.antt =====
-- `findship` on a fleet: where it finds a player's ship, and what the callers make of the result.
use university_collection.Prelude.{ℕ, zero, suc, ◌+◌, ◌*◌, ◌%◌, ◌/◌, ◌≤◌, ◌<◌, ◌≡◌}
use university_collection.Prelude.{◌≢◌, ◌⊎◌, inl, inr, ◌==◌}
use university_collection.Prelude.{Bool-cases, ==→≡, ==→≢, arith}
use university_collection.Sailing.Lake.{Lake, rows, columns}
use university_collection.Sailing.Lake.{ship_code, findship}
use university_collection.Sailing.Lake.Find.{Ship, findship-missing, row-findship, column-findship}
use university_collection.Sailing.Lake.Fleet.{IsPlayer, Covers, Fleet, IsAbsent}

-- The search of `findship`, as a decision.
row_search :
    (l : Lake) (code r n : ℕ)
    → ((c : ℕ) × (c < n) × (l r c ≡ code)) ⊎ ((c : ℕ) → c < n → l r c ≢ code)
row_search l code r zero = inr (λ c h. absurd (omega arith))
row_search l code r (suc n) = elim (row_search l code r n) [
  | inl (c, h, e) ↦ inl (c, omega arith, e)
  | inr before ↦ elim (Bool-cases (l r n == code)) [
    | inl here ↦ inl (n, omega arith, ==→≡ _ _ here)
    | inr other ↦ inr (λ c h e. elim (Bool-cases (c == n)) [
      | inl last ↦ ==→≢ _ _ other (rw (==→≡ c n last) at e)
      | inr early ↦ before c (let ne = ==→≢ c n early in omega arith) e
    ])
  ]
]

lake_search :
    (l : Lake) (p n : ℕ)
    → n ≤ rows
    → ((r : ℕ) × (c : ℕ) × Covers l p r c) ⊎ ((r c : ℕ) → r < n → c < columns → l r c ≢ ship_code p)
lake_search l p zero h = inr (λ r c k. absurd (omega arith))
lake_search l p (suc n) h = elim (lake_search l p n (omega arith)) [
  | inl found ↦ inl found
  | inr above ↦ elim (row_search l (ship_code p) n columns) [
    | inl (c, k, e) ↦ inl (n, c, record { row = omega arith; column = k; code = e })
    | inr here ↦ inr (λ r c hr hc e. elim (Bool-cases (r == n)) [
      | inl last ↦ here c hc (rw (==→≡ r n last) at e)
      | inr early ↦ above r c (let ne = ==→≢ r n early in omega arith) hc e
    ])
  ]
]

Ship-of_Covers :
    {l : Lake} (p r c : ℕ) → IsPlayer p → Fleet l → Covers l p r c → Ship l p r (2 * (c / 2))
Ship-of_Covers p r c i f h = record {
  row = h.row;
  column = omega (arith, h.column);
  left = (f.whole p r c i h).0;
  right = (f.whole p r c i h).1;
  only = λ s d hs hd e.
      let same = f.single p r c s d i h (record { row = hs; column = hd; code = e }) in
      (same.0, ground arith);
}

-- What `findship` returns, taken apart, is an even column inside the lake, where the ship of the
-- player is if there is one.
pub record Located (l : Lake) (p : ℕ) : Type 0 where
  pub row : findship l p / 100 < rows
  pub column : findship l p % 100 + 1 < columns
  pub even : (findship l p % 100) % 2 ≡ 0
  pub known : Ship l p (findship l p / 100) (findship l p % 100) ⊎ IsAbsent l p

-- In a fleet, what `findship` returns is a row and an even column inside the lake, and either the ship
-- of the player is there or no cell of the lake is of that player.
pub findship-Located : {l : Lake} (p : ℕ) → IsPlayer p → Fleet l → Located l p
findship-Located {l} p i f = elim (lake_search l p rows (omega arith)) [
  | inl (r, c, h) ↦
      let s = Ship-of_Covers p r c i f h in
      let at_row = row-findship s in
      let at_column = column-findship s in
      record {
        row = omega (arith, h.row);
        column = omega (arith, s.column);
        even = omega arith;
        known = inl (rw (at_row, at_column) s);
      }
  | inr absent ↦
      let zero_found = findship-missing l p absent in
      record { row = omega arith; column = omega arith; even = omega arith; known = inr absent }
]
