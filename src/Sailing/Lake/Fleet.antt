-- ===== src/Sailing/Lake/Fleet.antt =====
-- The shape of the ships on the lake: each covers one pair of columns `2 k`, `2 k + 1`.
use university_collection.Prelude.{
  ℕ, zero, suc, ◌+◌, ◌*◌, ◌%◌, ◌/◌, ◌≤◌, ◌<◌, ◌≡◌, refl, sym, ap, ◌∙◌,
}
use university_collection.Prelude.{◌≢◌, ◌⊎◌, inl, inr, false, ◌&&◌, ◌==◌}
use university_collection.Prelude.{if◌then◌else◌, Bool-cases, arith}
use university_collection.Sailing.Lake.{Lake, rows, columns, put_pair, sea, wreckage}
use university_collection.Sailing.Lake.{land, ship_code, player1, player2, player3, player4}
use university_collection.Sailing.Lake.Find.{Ship}

pub record IsPlayer (p : ℕ) : Type 0 where
  pub first : 1 ≤ p
  pub last : p ≤ 4

-- `l r c` belongs to the ship of `p`.
pub record Covers (l : Lake) (p r c : ℕ) : Type 0 where
  pub row : r < rows
  pub column : c < columns
  pub code : l r c ≡ ship_code p

-- Every ship covers whole pairs of columns, and no player has two ships.
pub record Fleet (l : Lake) : Type 0 where
  pub whole :
      (p r c : ℕ)
      → IsPlayer p
      → Covers l p r c
      → (l r (2 * (c / 2)) ≡ ship_code p) × (l r (2 * (c / 2) + 1) ≡ ship_code p)
  pub single :
      (p r c s d : ℕ) → IsPlayer p → Covers l p r c → Covers l p s d → (s ≡ r) × (d / 2 ≡ c / 2)

-- No cell of the lake belongs to `p`.
abbrev pub IsAbsent : Lake → ℕ → Type 0
IsAbsent l p = (r c : ℕ) → r < rows → c < columns → l r c ≢ ship_code p

-- The code that the ships are drawn with is the constant that `crashcheck` looks for.
pub ship_code_lem :
    (p : ℕ)
    → IsPlayer p
    → ((p ≡ 1) × (ship_code p ≡ player1))
      ⊎ ((p ≡ 2) × (ship_code p ≡ player2))
      ⊎ ((p ≡ 3) × (ship_code p ≡ player3))
      ⊎ ((p ≡ 4) × (ship_code p ≡ player4))
unfolding ship_code
ship_code_lem zero i = absurd (omega (arith, i.first))
ship_code_lem (suc zero) i = inl (refl, refl)
ship_code_lem (suc (suc zero)) i = inr (inl (refl, refl))
ship_code_lem (suc (suc (suc zero))) i = inr (inr (inl (refl, refl)))
ship_code_lem (suc (suc (suc (suc zero)))) i = inr (inr (inr (refl, refl)))
ship_code_lem (suc (suc (suc (suc (suc n))))) i = absurd (omega (arith, i.last))

pub ship_code_inj : (p q : ℕ) → IsPlayer p → IsPlayer q → ship_code p ≡ ship_code q → p ≡ q
ship_code_inj p q i j e = omega (arith, ship_code_lem p i, ship_code_lem q j)

-- A cell code that is no ship's.
abbrev pub IsPlain : ℕ → Type 0
IsPlain v = (p : ℕ) → IsPlayer p → v ≢ ship_code p

pub sea-IsPlain : IsPlain sea
sea-IsPlain p i = omega (arith, ship_code_lem p i)

pub wreckage-IsPlain : IsPlain wreckage
wreckage-IsPlain p i = omega (arith, ship_code_lem p i)

pub land-IsPlain : IsPlain land
land-IsPlain p i = omega (arith, ship_code_lem p i)

pub put_pair_lem :
    (l : Lake) (y x v r c : ℕ)
    → x % 2 ≡ 0
    → put_pair l y x v r c ≡ (if r == y && c / 2 == x / 2 then v else l r c)
put_pair_lem l y x v r c even = ground arith

-- A cell of `p` after a plain pair of cells was written is an old one, elsewhere.
Covers-put_pair :
    {l : Lake} (y x v p r c : ℕ)
    → x % 2 ≡ 0
    → v ≢ ship_code p
    → Covers (put_pair l y x v) p r c
    → Covers l p r c × (((r == y) && (c / 2 == x / 2)) ≡ false)
Covers-put_pair {l} y x v p r c even ne h = elim (Bool-cases ((r == y) && (c / 2 == x / 2))) [
  | inl there ↦ absurd (ne (rw (put_pair_lem l y x v r c even, there) at h.code))
  | inr away ↦ (
    record {
      row = h.row;
      column = h.column;
      code = rw (put_pair_lem l y x v r c even, away) at h.code;
    },
    away,
  )
]

-- Water and wrecks may be written over any pair of columns.
pub Fleet-put_plain :
    {l : Lake} (y x v : ℕ) → x % 2 ≡ 0 → IsPlain v → Fleet l → Fleet (put_pair l y x v)
Fleet-put_plain {l} y x v even plain f = record {
  whole = λ p r c i h.
      let old = Covers-put_pair y x v p r c even (plain p i) h in
      let w = f.whole p r c i old.0 in
      ground (
        arith,
        old.1,
        w,
        put_pair_lem l y x v r (2 * (c / 2)) even,
        put_pair_lem l y x v r (2 * (c / 2) + 1) even,
      );
  single = λ p r c s d i h k.
      f.single p r c s d i (Covers-put_pair y x v p r c even (plain p i) h).0
        (Covers-put_pair y x v p s d even (plain p i) k).0;
}

-- A ship's cell after a ship was written on the lake: one of the new ship's two, or an old one of
-- another player.
Covers-put_ship :
    {l : Lake} (y x p q r c : ℕ)
    → x % 2 ≡ 0
    → IsPlayer p
    → IsPlayer q
    → IsAbsent l p
    → Covers (put_pair l y x (ship_code p)) q r c
    → (q ≡ p) × (r ≡ y) × (c / 2 ≡ x / 2)
      ⊎ ((q ≢ p) × Covers l q r c × (((r == y) && (c / 2 == x / 2)) ≡ false))
Covers-put_ship {l} y x p q r c even i j absent h =
    elim (Bool-cases ((r == y) && (c / 2 == x / 2))) [
      | inl there ↦
          let same =
            ship_code_inj p q i j
              (rw (put_pair_lem l y x (ship_code p) r c even, there) at h.code) in
          inl (sym same, ground arith, ground arith)
      | inr away ↦
          let old : l r c ≡ ship_code q =
            rw (put_pair_lem l y x (ship_code p) r c even, away) at h.code in
          inr (
            λ e. absent r c h.row h.column (old ∙ ap ship_code e),
            record { row = h.row; column = h.column; code = old },
            away,
          )
    ]

-- A player without a ship may be given one on any pair of columns.
pub Fleet-put_ship :
    {l : Lake} (y x p : ℕ)
    → x % 2 ≡ 0
    → IsPlayer p
    → IsAbsent l p
    → Fleet l
    → Fleet (put_pair l y x (ship_code p))
Fleet-put_ship {l} y x p even player absent f = record {
  whole = λ q r c i h. elim (Covers-put_ship y x p q r c even player i absent h) [
    | inl new ↦ ground (
      arith,
      ap ship_code new.0,
      put_pair_lem l y x (ship_code p) r (2 * (c / 2)) even,
      put_pair_lem l y x (ship_code p) r (2 * (c / 2) + 1) even,
    )
    | inr old ↦ ground (
      arith,
      old.2,
      f.whole q r c i old.1,
      put_pair_lem l y x (ship_code p) r (2 * (c / 2)) even,
      put_pair_lem l y x (ship_code p) r (2 * (c / 2) + 1) even,
    )
  ];
  single = λ q r c s d i h k.
      let a = Covers-put_ship y x p q r c even player i absent h in
      let b = Covers-put_ship y x p q s d even player i absent k in
      elim a [
        | inl new ↦ elim b [ inl also ↦ omega arith | inr old ↦ absurd (old.0 new.0) ]
        | inr old ↦ elim b [
          | inl new ↦ absurd (old.0 new.0)
          | inr also ↦ f.single q r c s d i old.1 also.1
        ]
      ];
}

-- Writing over the ship that the fleet has of `p` leaves none.
pub IsAbsent-put_plain :
    {l : Lake} (y x v p : ℕ)
    → x % 2 ≡ 0
    → IsPlayer p
    → v ≢ ship_code p
    → Ship l p y x ⊎ IsAbsent l p
    → IsAbsent (put_pair l y x v) p
IsAbsent-put_plain {l} y x v p even i plain known r c hr hc e =
    let old =
      Covers-put_pair {l = l} y x v p r c even plain (record { row = hr; column = hc; code = e }) in
    elim known [
      | inl s ↦ ground (arith, s.only r c hr hc old.0.code, old.1)
      | inr absent ↦ absent r c hr hc old.0.code
    ]
