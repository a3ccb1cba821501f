-- ===== src/Sailing/Round/Show.antt =====
-- The ships that the wind took are shown in another colour and back again, in `moveplayers` and
-- `resetsavedpos` of Structured_Programming/main.c.
use university_collection.Prelude.{ℕ, suc, ◌+◌, ◌≤◌, ◌<◌, ◌≡◌, refl, sym, ap, ◌∙◌, subst}
use university_collection.Prelude.{◌≢◌, ◌⊎◌, inl, inr, Bool, true, false, ◌||◌, ◌==◌}
use university_collection.Prelude.{Bool-cases, ==→≡, ==→≢, arith}
use university_collection.Sailing.Lake.{Lake, put_pair, ship_code}
use university_collection.Sailing.Lake.Fleet.{Fleet, IsAbsent, ship_code_inj}
use university_collection.Sailing.Lake.Fleet.{Fleet-put_plain, Fleet-put_ship}
use university_collection.Sailing.State.{Game, update}
use university_collection.Sailing.Screen.{setpreview, printchange}
use university_collection.Sailing.Ships.{is_set}
use university_collection.Sailing.Ships.Keep.{Keeps, Keeps-trans, put_pair-outside}
use university_collection.Sailing.Round.{for4, save_place, is_saved, mark_place, reset_place}
use university_collection.Sailing.Round.{resetsavedpos, show_wind}
use university_collection.Sailing.Round.Saved.{for4-induction, Place, marked-IsPlain, next-IsPlayer}
use university_collection.Sailing.Round.Saved.{paint_saved-put_pair, InPair-put_plain, IsAbsent-put}
use university_collection.Sailing.Round.Saved.{
  IsAbsent-painted, Blown, Slot, Saving, save_place-Saving,
}

record Marking (l : Lake) (alive : ℕ → Bool) (k : ℕ) (g : Game) : Type 0 where
  keeps : Keeps l g.lake
  living : g.alive ≡ alive
  each : (i : ℕ) → i < 4 → Slot k g.lake i (g.savedpos i) (alive i)

-- The next round of the loop where nothing is painted.
unpainted :
    (l : Lake) (alive : ℕ → Bool) (i : ℕ) (g : Game)
    → g.savedpos i ≡ (0, 0)
    → Marking l alive i g
    → Marking l alive (suc i) g
unpainted l alive i g e m = record {
  keeps = m.keeps;
  living = m.living;
  each = λ j hj. elim (m.each j hj) [
    | inl z ↦ inl z
    | inr b ↦ inr (record {
      y = b.y;
      x = b.x;
      at = b.at;
      place = b.place;
      live = b.live;
      home = b.home;
      gone = λ h. elim (Bool-cases (j == i)) [
        | inl same ↦
            let zero_at : g.savedpos j ≡ (0, 0) = ap g.savedpos (==→≡ j i same) ∙ e in
            absurd (omega (arith, ap (λ (q : ℕ × ℕ). q.1) (sym b.at ∙ zero_at)))
        | inr other ↦ b.gone (omega (arith, ==→≢ j i other))
      ];
    })
  ];
}

painted :
    (l : Lake) (alive : ℕ → Bool) (i : ℕ) (g : Game)
    → i < 4
    → (b : Blown i g.lake i (g.savedpos i) (alive i)) → Marking l alive i g
    → Marking l alive (suc i) (record g { lake = put_pair g.lake b.y b.x 7219 })
painted l alive i g few b m = record {
  keeps = Keeps-trans m.keeps (record {
    fleet = Fleet-put_plain b.y b.x 7219 b.place.even marked-IsPlain m.keeps.fleet;
    outside = λ r c h. put_pair-outside g.lake b.y b.x 7219 r c b.place.row b.place.column h;
  });
  living = m.living;
  each = λ j hj. elim (m.each j hj) [
    | inl z ↦ inl z
    | inr d ↦ inr (record {
      y = d.y;
      x = d.x;
      at = d.at;
      place = d.place;
      live = d.live;
      home =
          InPair-put_plain (j + 1) d.y d.x b.x 7219 b.y
            (marked-IsPlain (j + 1) (next-IsPlayer j hj)) d.home b.place.even;
      gone = λ h. elim (Bool-cases (j == i)) [
        | inl same ↦
            let e = ==→≡ j i same in
            subst (λ n. IsAbsent (put_pair g.lake b.y b.x 7219) (n + 1)) (sym e)
              (IsAbsent-painted (i + 1) b.y b.x 7219 (marked-IsPlain (i + 1) (next-IsPlayer i few))
                b.place.even b.home)
        | inr other ↦
            IsAbsent-put (j + 1) b.y b.x 7219 (marked-IsPlain (j + 1) (next-IsPlayer j hj))
              b.place.even (d.gone (omega (arith, ==→≢ j i other)))
      ];
    })
  ];
}

is_saved-zero : (g : Game) (i : ℕ) → g.savedpos i ≡ (0, 0) → is_saved g i ≡ false
is_saved-zero g i e = ap (λ (q : ℕ × ℕ). is_set q.0 || is_set q.1) e

is_saved-place : (g : Game) (i y x : ℕ) → g.savedpos i ≡ (y, x + 1) → is_saved g i ≡ true
is_saved-place g i y x e = ap (λ (q : ℕ × ℕ). is_set q.0 || is_set q.1) e ∙ ground arith

mark_place-Marking :
    (l : Lake) (alive : ℕ → Bool) (i : ℕ) (g : Game)
    → i < 4
    → Marking l alive i g
    → Marking l alive (suc i) (mark_place i g)
unfolding mark_place
mark_place-Marking l alive i g few m = elim (m.each i few) [
  | inl z ↦ rw (is_saved-zero g i z) (unpainted l alive i g z m)
  | inr b ↦
      let living : g.alive i ≡ true = ap (λ a. a i) m.living ∙ b.live in
      rw (is_saved-place g i b.y b.x b.at, living, paint_saved-put_pair g i 7219 b.y b.x b.at)
        (painted l alive i g few b m)
]

-- After the first `k` rounds of `resetsavedpos`: a place that is still to be painted with its ship.
record Vacant (k : ℕ) (l : Lake) (i : ℕ) (s : ℕ × ℕ) : Type 0 where
  y : ℕ
  x : ℕ
  at : s ≡ (y, x + 1)
  place : Place y x
  later : k ≤ i
  absent : IsAbsent l (i + 1)

record Resetting (l : Lake) (k : ℕ) (g : Game) : Type 0 where
  keeps : Keeps l g.lake
  each : (i : ℕ) → i < 4 → (g.savedpos i ≡ (0, 0)) ⊎ Vacant k g.lake i (g.savedpos i)

reset_place-Vacant :
    (l : Lake) (k i : ℕ) (s t : ℕ × ℕ) → s ≡ t → Vacant k l i s → k ≢ i → Vacant (suc k) l i t
reset_place-Vacant l k i s t e v ne = record {
  y = v.y;
  x = v.x;
  at = sym e ∙ v.at;
  place = v.place;
  later = omega (arith, v.later, ne);
  absent = v.absent;
}

restored :
    (l : Lake) (i : ℕ) (g : Game)
    → i < 4
    → (v : Vacant i g.lake i (g.savedpos i)) → Resetting l i g
    → Resetting l (suc i) (record g {
      lake = put_pair g.lake v.y v.x (ship_code (i + 1));
      savedpos = update g.savedpos i (0, 0);
    })
restored l i g few v m = record {
  keeps = Keeps-trans m.keeps (record {
    fleet =
        Fleet-put_ship v.y v.x (i + 1) v.place.even (next-IsPlayer i few) v.absent m.keeps.fleet;
    outside = λ r c h.
        put_pair-outside g.lake v.y v.x (ship_code (i + 1)) r c v.place.row v.place.column h;
  });
  each = λ j hj. elim (Bool-cases (j == i)) [
    | inl same ↦ rw same (inl refl)
    | inr other ↦ rw other (elim (m.each j hj) [
      | inl z ↦ inl z
      | inr d ↦ inr (record {
        y = d.y;
        x = d.x;
        at = d.at;
        place = d.place;
        later = omega (arith, d.later, ==→≢ j i other);
        absent =
            IsAbsent-put (j + 1) v.y v.x (ship_code (i + 1))
              (λ e. ==→≢ j i other (
                omega (
                  arith,
                  ship_code_inj (i + 1) (j + 1) (next-IsPlayer i few) (next-IsPlayer j hj) e,
                )))
              v.place.even d.absent;
      })
    ])
  ];
}

reset_place-Resetting :
    (l : Lake) (i : ℕ) (g : Game) → i < 4 → Resetting l i g → Resetting l (suc i) (reset_place i g)
unfolding reset_place
reset_place-Resetting l i g few m = elim (m.each i few) [
  | inl z ↦ rw (is_saved-zero g i z) (record {
    keeps = m.keeps;
    each = λ j hj. elim (m.each j hj) [
      | inl e ↦ inl e
      | inr v ↦ inr (
          reset_place-Vacant g.lake i j (g.savedpos j) (g.savedpos j) refl v
            (λ e. omega (arith, ap (λ (q : ℕ × ℕ). q.1) (sym v.at ∙ ap g.savedpos (sym e) ∙ z))))
    ];
  })
  | inr v ↦
      rw
        (is_saved-place g i v.y v.x v.at, paint_saved-put_pair g i (ship_code (i + 1)) v.y v.x v.at)
        (restored l i g few v m)
]

Saving-start : (g : Game) → ((i : ℕ) → i < 4 → g.savedpos i ≡ (0, 0)) → Saving g.lake g.alive g
Saving-start g zero_saved = record {
  lake = refl;
  living = refl;
  each = λ i h. inl (zero_saved i h);
}

-- Showing the ships that the wind took leaves a fleet a fleet, writes only inside the lake, and
-- leaves no place saved.
pub show_wind-Keeps :
    (affected : ℕ → Bool) (g : Game)
    → Fleet g.lake
    → ((i : ℕ) → i < 4 → g.savedpos i ≡ (0, 0))
    → Keeps g.lake (show_wind affected g).lake
      × ((i : ℕ) → i < 4 → (show_wind affected g).savedpos i ≡ (0, 0))
unfolding show_wind resetsavedpos setpreview printchange
show_wind-Keeps affected g f zero_saved =
    let s =
      for4-induction (λ i. Saving g.lake g.alive) (save_place affected) g
        (Saving-start g zero_saved)
        (λ i a few v. save_place-Saving affected g.lake g.alive i a f few v) in
    let saved = setpreview (printchange (for4 (save_place affected) g)) in
    let m : Marking g.lake g.alive 4 (for4 mark_place saved) =
      for4-induction (Marking g.lake g.alive) mark_place saved
        (record {
          keeps = record {
            fleet = subst Fleet (sym s.lake) f;
            outside = λ r c h. ap (λ l. l r c) s.lake;
          };
          living = s.living;
          each = λ i h.
              subst (λ l. Slot 0 l i (saved.savedpos i) (g.alive i)) (sym s.lake) (s.each i h);
        })
        (λ i a few v. mark_place-Marking g.lake g.alive i a few v) in
    let marked = setpreview (printchange (for4 mark_place saved)) in
    let r : Resetting g.lake 4 (for4 reset_place marked) =
      for4-induction (Resetting g.lake) reset_place marked
        (record {
          keeps = m.keeps;
          each = λ i h. elim (m.each i h) [
            | inl z ↦ inl z
            | inr b ↦ inr (record {
              y = b.y;
              x = b.x;
              at = b.at;
              place = b.place;
              later = omega arith;
              absent = b.gone h;
            })
          ];
        })
        (λ i a few v. reset_place-Resetting g.lake i a few v) in
    (r.keeps, λ i h. elim (r.each i h) [ inl z ↦ z | inr v ↦ absurd (omega (arith, h, v.later)) ])
