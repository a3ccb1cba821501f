-- ===== src/Sailing/Setup/Start.antt =====
-- The lake at the start of a game in Structured_Programming/main.c: the ships in line, and the land
-- that bars the short way to the finish.
use university_collection.Prelude.{ℕ, zero, suc, ◌+◌, ◌-◌, ◌*◌, ◌≤◌, ◌<◌, ◌≡◌, refl, sym}
use university_collection.Prelude.{◌≢◌, inl, inr, ◌&&◌, leb, ltb, ◌==◌}
use university_collection.Prelude.{if_elim, Bool-cases, ==→≡, ==→≢, subst, arith}
use university_collection.Sailing.Lake.{Lake, put_pair, finish, columns, rows}
use university_collection.Sailing.Lake.{ship_code}
use university_collection.Sailing.Lake.Find.{Ship}
use university_collection.Sailing.Lake.Fleet.{IsPlayer, Fleet, IsAbsent, Fleet-put_ship}
use university_collection.Sailing.Lake.Fleet.{
  IsPlain, sea-IsPlain, land-IsPlain, ship_code_lem, ship_code_inj,
}
use university_collection.Sailing.Setup.{shores, lake_reset, place_ships, set_players}
use university_collection.Sailing.Setup.Shores.{lake_reset_lem, extent}
use university_collection.Sailing.Ships.Clear.{Voyage, up, right, down, left}
use university_collection.Sailing.Course.Trail.{Inside, IsNavigable, Trail}

-- The first `i` players are in line on row 11, four columns apart, and the others are not there.
pub record InLine (l : Lake) (i : ℕ) : Type 0 where
  pub fleet : Fleet l
  pub placed : (p : ℕ) → IsPlayer p → p ≤ i → Ship l p 11 (4 * (p - 1))
  pub absent : (p : ℕ) → IsPlayer p → i < p → IsAbsent l p

finish-IsPlain : IsPlain finish
finish-IsPlain p i = omega (arith, ship_code_lem p i)

lake_reset-IsPlain : (l : Lake) (r c : ℕ) → r < rows → c < columns → IsPlain (lake_reset l r c)
lake_reset-IsPlain l r c hr hc = subst IsPlain (sym (lake_reset_lem l r c hr hc)) (
    if_elim IsPlain (r == 6 && ltb c 12) _ _ (λ _. finish-IsPlain)
      λ _.
        if_elim IsPlain (leb (extent shores r).0 c && ltb c (extent shores r).1) _ _
          (λ _. land-IsPlain) (λ _. sea-IsPlain))

lake_reset-InLine : (l : Lake) → InLine (lake_reset l) 0
lake_reset-InLine l = record {
  fleet = record {
    whole = λ p r c i h. absurd (lake_reset-IsPlain l r c h.row h.column p i h.code);
    single = λ p r c s d i h k. absurd (lake_reset-IsPlain l r c h.row h.column p i h.code);
  };
  placed = λ p i h. absurd (omega (arith, i.first));
  absent = λ p i h r c hr hc. lake_reset-IsPlain l r c hr hc p i;
}

place-InLine :
    (l : Lake) (i : ℕ)
    → i < 4
    → InLine l i
    → InLine (put_pair l 11 (4 * i) (ship_code (i + 1))) (i + 1)
place-InLine l i few v = record {
  fleet =
      Fleet-put_ship 11 (4 * i) (i + 1) (omega arith) player (v.absent (i + 1) player (omega arith))
        v.fleet;
  placed = λ p j h. elim (Bool-cases (p == (i + 1))) [
    | inl new ↦ rw (==→≡ p (i + 1) new, at_new) fresh
    | inr old ↦
        let ne = ==→≢ p (i + 1) old in beside p j ne (v.placed p j (omega arith)) (omega arith)
  ];
  absent = λ p j h r c hr hc e.
      ground (arith, v.absent p j (omega arith) r c hr hc, ship_code_inj (i + 1) p player j);
}
  where
    player : IsPlayer (i + 1)
    player = omega arith

    at_new : i + 1 - 1 ≡ i
    at_new = omega arith

    fresh : Ship (put_pair l 11 (4 * i) (ship_code (i + 1))) (i + 1) 11 (4 * i)
    fresh = record {
      row = omega arith;
      column = omega arith;
      left = ground arith;
      right = ground arith;
      only = λ r c hr hc e. ground (arith, v.absent (i + 1) player (omega arith) r c hr hc);
    }

    beside :
        (p : ℕ)
        → IsPlayer p
        → p ≢ i + 1
        → Ship l p 11 (4 * (p - 1))
        → p ≤ i
        → Ship (put_pair l 11 (4 * i) (ship_code (i + 1))) p 11 (4 * (p - 1))
    beside p j ne s h = record {
      row = s.row;
      column = s.column;
      left = ground (arith, s.left, j.first);
      right = ground (arith, s.right, j.first);
      only = λ r c hr hc e. ground (arith, s.only r c hr hc, ship_code_inj (i + 1) p player j);
    }

place_ships-InLine :
    (n i cursor : ℕ) (l : Lake)
    → cursor ≡ 4 * i
    → i + n ≤ 4
    → InLine l i
    → InLine (place_ships n i cursor l) (i + n)
unfolding place_ships
place_ships-InLine zero i cursor l e h v = subst (InLine l) (let q : i ≡ i + 0 = omega arith in q) v
place_ships-InLine (suc n) i cursor l e h v =
    let shift : suc i + n ≡ i + suc n = omega arith in
    let next : i + 1 ≡ suc i = omega arith in
    subst (InLine (place_ships (suc n) i cursor l)) shift (
      place_ships-InLine n (suc i) (cursor + 4) (put_pair l 11 cursor (ship_code (i + 1)))
        (omega arith) (omega arith)
        (subst (InLine (put_pair l 11 cursor (ship_code (i + 1)))) next
          (rw e (place-InLine l i (omega arith) v))))

-- At the start of a game for up to four players, each of them has one ship, on row 11, four columns
-- apart, and no other player has one.
pub set_players-InLine :
    (l : Lake) (players : ℕ) → players ≤ 4 → InLine (set_players players (lake_reset l)) players
unfolding set_players
set_players-InLine l players h =
    subst (InLine (place_ships players 0 0 (lake_reset l)))
      (let e : 0 + players ≡ players = omega arith in e)
      (place_ships-InLine players 0 0 (lake_reset l) refl (omega arith) (lake_reset-InLine l))

-- On row 8 only the two places at the right border are free of land.
row_8-barred : (l : Lake) (x : ℕ) → Inside 8 x → IsNavigable (lake_reset l) 8 x → 60 ≤ x
row_8-barred l x at free = ground (
  arith,
  at.even,
  free.left_land,
  free.right_land,
  lake_reset_lem l 8 x (omega arith) (omega (arith, at.column)),
  lake_reset_lem l 8 (x + 1) (omega arith) at.column,
)

-- There is no short way to the finish: on the lake as `lake_reset` makes it, a course that starts
-- south of row 8 and ends north of it passes row 8 at one of the two places at the right border,
-- on the far side of the island.
Trail-round_island :
    (l : Lake) (codes : ℕ → ℕ) (sy sx n y x : ℕ)
    → 9 ≤ sy
    → y ≤ 7
    → Trail (lake_reset l) codes sy sx n y x
    → (k : ℕ) × (z : ℕ) × (k < n) × Trail (lake_reset l) codes sy sx k 8 z × (60 ≤ z)
Trail-round_island l codes sy sx zero y x far near t = absurd (omega arith)
Trail-round_island l codes sy sx (suc n) y x far near (y', x', t, v, w, at) =
    elim (Bool-cases (leb y' 7)) [
      | inl north ↦
          let (k, z, h, u, e) = Trail-round_island l codes sy sx n y' x' far (ground arith) t in
          (k, z, omega arith, u, e)
      | inr south ↦
          let on : y' ≡ 8 = one_row v (ground arith) in
          (n, x', omega arith, rw on at t, crossing n x' (rw on at t))
    ]
  where
    one_row : {d z w : ℕ} → Voyage d y' z y w → 8 ≤ y' → y' ≡ 8
    one_row (up _ e _) h = omega arith
    one_row (right _ e _ _) h = omega arith
    one_row (down _ e _ _) h = omega arith
    one_row (left _ e _) h = omega arith

    crossing : (k z : ℕ) → Trail (lake_reset l) codes sy sx k 8 z → 60 ≤ z
    crossing zero z (e, _) = absurd (omega arith)
    crossing (suc k) z (_, _, _, _, free, in_lake) = row_8-barred l z in_lake free
