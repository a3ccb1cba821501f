-- ===== src/Sailing/Turn/Countdown.antt =====
-- The countdown of all wrecks in `play_turn` of Structured_Programming/main.c.
use university_collection.Prelude.{ℕ, zero, suc, ◌-◌, ◌<◌, ◌≡◌, refl, ap, ◌∙◌}
use university_collection.Prelude.{
  Bool, true, false, not, ◌&&◌, ◌||◌, leb, ◌==◌, if◌then◌else◌, arith,
}
use university_collection.Sailing.Lake.{sea}
use university_collection.Sailing.State.{Game}
use university_collection.Sailing.Round.{for4}
use university_collection.Sailing.Turn.{tick_wreck}
use university_collection.Sailing.Turn.Wrecks.{runs_out, covers, Ticked, tick-Ticked}

-- The cell `(r, c)` becomes sea for player `i`.
abbrev pub sinks : Game → (i r c : ℕ) → Bool
sinks g i r c = runs_out g i && covers g i r c

-- What is stored for player `j` is the same.
record Seen (g h : Game) (j : ℕ) : Type 0 where
  counter : h.wreckcounter j ≡ g.wreckcounter j
  place : h.wreckship j ≡ g.wreckship j

Seen-then : (g h k : Game) (j : ℕ) → Seen g h j → Seen h k j → Seen g k j
Seen-then g h k j s t = record { counter = t.counter ∙ s.counter; place = t.place ∙ s.place }

Ticked-Seen : (g h : Game) (i j : ℕ) → Ticked g i h → (j == i) ≡ false → Seen g h j
Ticked-Seen g h i j t other = record {
  counter = t.counter j ∙ rw other refl;
  place = t.place j ∙ rw other refl;
}

Seen-runs_out : (g h : Game) (j : ℕ) → Seen g h j → runs_out h j ≡ runs_out g j
Seen-runs_out g h j s =
    ap (λ n. leb n 1 && not ((h.wreckship j).0 == 0)) s.counter
    ∙ ap (λ (p : ℕ × ℕ). leb (g.wreckcounter j) 1 && not (p.0 == 0)) s.place

Seen-sinks : (g h : Game) (j r c : ℕ) → Seen g h j → sinks h j r c ≡ sinks g j r c
Seen-sinks g h j r c s =
    ap (λ b. b && covers h j r c) (Seen-runs_out g h j s)
    ∙ ap (λ (p : ℕ × ℕ). runs_out g j && (r == p.0 && (c == p.1 || c == p.1 - 1))) s.place

-- The countdown of player `j` itself, seen from before and after the others.
record Counted (g h : Game) (j : ℕ) : Type 0 where
  counter : h.wreckcounter j ≡ g.wreckcounter j - 1
  place : h.wreckship j ≡ (if runs_out g j then (0, 0) else g.wreckship j)

Ticked-Counted : (g u v h : Game) (j : ℕ) → Seen g u j → Ticked u j v → Seen v h j → Counted g h j
Ticked-Counted g u v h j s t w =
    let self : (j == j) ≡ true = ground arith in
    record {
      counter = w.counter ∙ t.counter j ∙ rw self (ap (λ n. n - 1) s.counter);
      place =
          w.place
          ∙ t.place j
          ∙ rw self (ap (λ b. if b then (0, 0) else u.wreckship j) (Seen-runs_out g u j s))
          ∙ ap (λ p. if runs_out g j then (0, 0) else p) s.place;
    }

any_sea :
    (a b c d : Bool) (v : ℕ)
    → (if d then sea else if c then sea else if b then sea else if a then sea else v)
      ≡ (if a || b || c || d then sea else v)
any_sea a b c d v = ground arith

-- The countdown of a round, which `play_turn` runs for all four players after the ships have moved: each
-- counter that is not 0 goes down by one. A wreck below the first row whose counter is 1 (or 0 already) has
-- its place forgotten, and its two cells become sea; the other wrecks, those of the first row among them,
-- keep their place, and no other cell of the lake changes.
pub countdown_lem :
    (g : Game)
    → ((j : ℕ)
        → j < 4
        → ((for4 tick_wreck g).wreckcounter j ≡ g.wreckcounter j - 1)
          × ((for4 tick_wreck g).wreckship j ≡ (if runs_out g j then (0, 0) else g.wreckship j)))
      × ((r c : ℕ)
          → (for4 tick_wreck g).lake r c ≡ (
              if sinks g 0 r c || sinks g 1 r c || sinks g 2 r c || sinks g 3 r c
              then sea
              else g.lake r c))
countdown_lem g = (players, cells)
  where
    g1 : Game
    g1 = tick_wreck 0 g

    g2 : Game
    g2 = tick_wreck 1 g1

    g3 : Game
    g3 = tick_wreck 2 g2

    g4 : Game
    g4 = tick_wreck 3 g3

    t0 : Ticked g 0 g1
    t0 = tick-Ticked g 0

    t1 : Ticked g1 1 g2
    t1 = tick-Ticked g1 1

    t2 : Ticked g2 2 g3
    t2 = tick-Ticked g2 2

    t3 : Ticked g3 3 g4
    t3 = tick-Ticked g3 3

    before : (j : ℕ) → (j == 0) ≡ false → Seen g g1 j
    before j a = Ticked-Seen g g1 0 j t0 a

    before2 : (j : ℕ) → (j == 0) ≡ false → (j == 1) ≡ false → Seen g g2 j
    before2 j a b = Seen-then g g1 g2 j (before j a) (Ticked-Seen g1 g2 1 j t1 b)

    before3 : Seen g g3 3
    before3 = Seen-then g g2 g3 3 (before2 3 refl refl) (Ticked-Seen g2 g3 2 3 t2 refl)

    after2 : (j : ℕ) → (j == 2) ≡ false → (j == 3) ≡ false → Seen g2 g4 j
    after2 j a b = Seen-then g2 g3 g4 j (Ticked-Seen g2 g3 2 j t2 a) (Ticked-Seen g3 g4 3 j t3 b)

    kept : (j : ℕ) → Seen g g j
    kept j = record { counter = refl; place = refl }

    of : (j : ℕ) → j < 4 → Counted g g4 j
    of zero h =
        Ticked-Counted g g g1 g4 0 (kept 0) t0
          (Seen-then g1 g2 g4 0 (Ticked-Seen g1 g2 1 0 t1 refl) (after2 0 refl refl))
    of (suc zero) h = Ticked-Counted g g1 g2 g4 1 (before 1 refl) t1 (after2 1 refl refl)
    of (suc (suc zero)) h =
        Ticked-Counted g g2 g3 g4 2 (before2 2 refl refl) t2 (Ticked-Seen g3 g4 3 2 t3 refl)
    of (suc (suc (suc zero))) h =
        Ticked-Counted g g3 g4 g4 3 before3 t3 (record { counter = refl; place = refl })
    of (suc (suc (suc (suc j)))) h = absurd (omega (arith, h))

    players :
        (j : ℕ)
        → j < 4
        → (g4.wreckcounter j ≡ g.wreckcounter j - 1)
          × (g4.wreckship j ≡ (if runs_out g j then (0, 0) else g.wreckship j))
    players j h = ((of j h).counter, (of j h).place)

    cells :
        (r c : ℕ)
        → g4.lake r c ≡ (
            if sinks g 0 r c || sinks g 1 r c || sinks g 2 r c || sinks g 3 r c
            then sea
            else g.lake r c)
    cells r c =
        t3.cell r c
        ∙ ap (λ b. if b then sea else g3.lake r c) (Seen-sinks g g3 3 r c before3)
        ∙ ap (λ v. if sinks g 3 r c then sea else v)
            (t2.cell r c
              ∙ ap (λ b. if b then sea else g2.lake r c)
                  (Seen-sinks g g2 2 r c (before2 2 refl refl))
              ∙ ap (λ v. if sinks g 2 r c then sea else v)
                  (t1.cell r c
                    ∙ ap (λ b. if b then sea else g1.lake r c)
                        (Seen-sinks g g1 1 r c (before 1 refl))
                    ∙ ap (λ v. if sinks g 1 r c then sea else v) (t0.cell r c)))
        ∙ any_sea (sinks g 0 r c) (sinks g 1 r c) (sinks g 2 r c) (sinks g 3 r c) (g.lake r c)
