-- ===== src/Sailing/Turn/Wrecks.antt =====
-- The countdown of one wreck in `play_turn` of Structured_Programming/main.c.
use university_collection.Prelude.{ℕ, ◌-◌, ◌≡◌, refl, sym, subst, ap, ◌∙◌, ==→≡}
use university_collection.Prelude.{Bool, true, false, not, ◌&&◌, ◌||◌, leb, ◌==◌, if◌then◌else◌}
use university_collection.Prelude.{Bool-cases, inl, inr, arith}
use university_collection.Sailing.Lake.{Lake, put, sea}
use university_collection.Sailing.State.{Game, update}
use university_collection.Sailing.Screen.{setpreview, printchange}
use university_collection.Sailing.Turn.{tick_wreck}

-- The countdown for player `i` ends in this round, for a wreck that the source takes for one: in the first
-- row it does not.
abbrev pub runs_out : Game → ℕ → Bool
runs_out g i = leb (g.wreckcounter i) 1 && not ((g.wreckship i).0 == 0)

-- The cell `(r, c)` is one of the two of the wreck of player `i`, whose right column is stored.
abbrev pub covers : Game → (i r c : ℕ) → Bool
covers g i r c = r == (g.wreckship i).0 && (c == (g.wreckship i).1 || c == (g.wreckship i).1 - 1)

-- What the countdown for player `i` does to each part of the state that it changes.
pub record Ticked (g : Game) (i : ℕ) (h : Game) : Type 0 where
  pub counter :
      (j : ℕ) → h.wreckcounter j ≡ (if j == i then g.wreckcounter j - 1 else g.wreckcounter j)
  pub place : (j : ℕ) → h.wreckship j ≡ (if j == i && runs_out g j then (0, 0) else g.wreckship j)
  pub cell : (r c : ℕ) → h.lake r c ≡ (if runs_out g i && covers g i r c then sea else g.lake r c)

-- The place of a wreck turned into sea and forgotten.
abbrev forgotten : ℕ → Game → Game → Game
forgotten i g h =
    let v = setpreview h in
    printchange (record v {
      lake =
          put (put v.lake (g.wreckship i).0 (g.wreckship i).1 sea) (g.wreckship i).0
            ((g.wreckship i).1 - 1) sea;
      wreckship = update v.wreckship i (0, 0);
    })

abbrev counted : ℕ → Game → Game
counted i g = record g { wreckcounter = update g.wreckcounter i (g.wreckcounter i - 1) }

-- `tick_wreck` by its tests.
module _ (g : Game) (i : ℕ) where
  tick_none : (g.wreckcounter i == 0) ≡ true → ((g.wreckship i).0 == 0) ≡ true → tick_wreck i g ≡ g
  unfolding tick_wreck
  tick_none k z = rw (k, k, z) refl

  tick_over :
      (g.wreckcounter i == 0) ≡ true
      → ((g.wreckship i).0 == 0) ≡ false
      → tick_wreck i g ≡ forgotten i g g
  unfolding tick_wreck
  tick_over k z = rw (k, k, z) refl

  self : (i == i) ≡ true
  self = ground arith

  tick_waits :
      (g.wreckcounter i == 0) ≡ false
      → ((g.wreckcounter i - 1) == 0) ≡ false
      → tick_wreck i g ≡ counted i g
  unfolding tick_wreck
  tick_waits k m = rw (k, self, m) refl

  tick_top :
      (g.wreckcounter i == 0) ≡ false
      → ((g.wreckcounter i - 1) == 0) ≡ true
      → ((g.wreckship i).0 == 0) ≡ true
      → tick_wreck i g ≡ counted i g
  unfolding tick_wreck
  tick_top k m z = rw (k, self, m, z) refl

  tick_ends :
      (g.wreckcounter i == 0) ≡ false
      → ((g.wreckcounter i - 1) == 0) ≡ true
      → ((g.wreckship i).0 == 0) ≡ false
      → tick_wreck i g ≡ forgotten i g (counted i g)
  unfolding tick_wreck
  tick_ends k m z = rw (k, self, m, z) refl

  forgotten-Ticked :
      (h : Game)
      → runs_out g i ≡ true
      → h.lake ≡ g.lake
      → h.wreckship ≡ g.wreckship
      → ((j : ℕ) → h.wreckcounter j ≡ (if j == i then g.wreckcounter j - 1 else g.wreckcounter j))
      → Ticked g i (forgotten i g h)
  unfolding setpreview printchange
  forgotten-Ticked h out l w n = record {
    counter = n;
    place = λ j. elim (Bool-cases (j == i)) [
      | inl e ↦
          let same : j ≡ i = ==→≡ j i e in
          let k : runs_out g j ≡ true = ap (runs_out g) same ∙ out in rw (e, k) refl
      | inr e ↦ rw e (ap (λ q. q j) w)
    ];
    cell = λ r c. rw out (
        ap (λ q. q r c)
          (ap
            (λ (q : Lake).
              put (put q (g.wreckship i).0 (g.wreckship i).1 sea) (g.wreckship i).0
                ((g.wreckship i).1 - 1) sea)
            l)
        ∙ sunk (r == (g.wreckship i).0) (c == (g.wreckship i).1) (c == ((g.wreckship i).1 - 1))
            (g.lake r c));
  }
    where
      sunk :
          (a b d : Bool) (v : ℕ)
          → (if a && d then sea else if a && b then sea else v) ≡ (if a && (b || d) then sea else v)
      sunk true true true v = refl
      sunk true true false v = refl
      sunk true false true v = refl
      sunk true false false v = refl
      sunk false b d v = refl

  kept-Ticked :
      (h : Game)
      → runs_out g i ≡ false
      → h.lake ≡ g.lake
      → h.wreckship ≡ g.wreckship
      → ((j : ℕ) → h.wreckcounter j ≡ (if j == i then g.wreckcounter j - 1 else g.wreckcounter j))
      → Ticked g i h
  kept-Ticked h out l w n = record {
    counter = n;
    place = λ j. elim (Bool-cases (j == i)) [
      | inl e ↦
          let same : j ≡ i = ==→≡ j i e in
          let k : runs_out g j ≡ false = ap (runs_out g) same ∙ out in rw (e, k) (ap (λ q. q j) w)
      | inr e ↦ rw e (ap (λ q. q j) w)
    ];
    cell = λ r c. rw out (ap (λ q. q r c) l);
  }

  idle_count :
      (g.wreckcounter i == 0) ≡ true
      → (j : ℕ) → g.wreckcounter j ≡ (if j == i then g.wreckcounter j - 1 else g.wreckcounter j)
  idle_count k j = elim (Bool-cases (j == i)) [
    | inl e ↦
        let none_left : g.wreckcounter j ≡ 0 = ap g.wreckcounter (==→≡ j i e) ∙ ==→≡ _ 0 k in
        rw e (omega (arith, none_left))
    | inr e ↦ rw e refl
  ]

  counted_count :
      (j : ℕ)
      → (counted i g).wreckcounter j ≡ (if j == i then g.wreckcounter j - 1 else g.wreckcounter j)
  counted_count j = elim (Bool-cases (j == i)) [
    | inl e ↦ rw (e) (ap (λ k. g.wreckcounter k - 1) (sym (==→≡ j i e)))
    | inr e ↦ rw e refl
  ]

  pub tick-Ticked : Ticked g i (tick_wreck i g)
  tick-Ticked = elim (Bool-cases (g.wreckcounter i == 0)) [
    | inl k ↦ elim (Bool-cases ((g.wreckship i).0 == 0)) [
      | inl z ↦
          subst (Ticked g i) (sym (tick_none k z))
            (kept-Ticked g (ground (arith, k, z)) refl refl (idle_count k))
      | inr z ↦
          subst (Ticked g i) (sym (tick_over k z))
            (forgotten-Ticked g (ground (arith, k, z)) refl refl (idle_count k))
    ]
    | inr k ↦ elim (Bool-cases ((g.wreckcounter i - 1) == 0)) [
      | inr m ↦
          subst (Ticked g i) (sym (tick_waits k m))
            (kept-Ticked (counted i g) (ground (arith, k, m)) refl refl counted_count)
      | inl m ↦ elim (Bool-cases ((g.wreckship i).0 == 0)) [
        | inl z ↦
            subst (Ticked g i) (sym (tick_top k m z))
              (kept-Ticked (counted i g) (ground (arith, k, m, z)) refl refl counted_count)
        | inr z ↦
            subst (Ticked g i) (sym (tick_ends k m z))
              (forgotten-Ticked (counted i g) (ground (arith, k, m, z)) refl refl counted_count)
      ]
    ]
  ]
