-- ===== src/Sailing/Ships/Faults.antt =====
-- Where `moveto` of Structured_Programming/main.c does not do what its comments say.
use university_collection.Prelude.{ℕ, ◌+◌, ◌-◌, ◌<◌, ◌≡◌, refl}
use university_collection.Prelude.{◌⊎◌, inl, inr, true, false}
use university_collection.Prelude.{arith}
use university_collection.Prelude.Int.{pos, incr, is_spent}
use university_collection.Sailing.Lake.{Lake, findship, ship_code}
use university_collection.Sailing.Lake.{land}
use university_collection.Sailing.Lake.Find.{Ship, findship-missing}
use university_collection.Sailing.Lake.Fleet.{IsPlayer, ship_code_inj, IsAbsent}
use university_collection.Sailing.Lake.Fleet.{land-IsPlain, sea-IsPlain, wreckage-IsPlain}
use university_collection.Sailing.State.{Game, cell}
use university_collection.Sailing.Ships.{is_aground, is_rammed, moveto}
use university_collection.Sailing.Ships.Clear.{
  IsWater, Voyage, up, right, down, left, carried, asked,
}
use university_collection.Sailing.Ships.Clear.{moveto-passes, aground-left, rammed-water}
use university_collection.Sailing.Ships.Crash.{target_player-ship_code}

-- A ship goes left over land, and loses no life, if the land lies in the left one of the two cells
-- that it takes and the right one is free: `crashcheck` is asked about the place one column too far
-- to the right.
moveto_left_overland :
    (g : Game) (p y x : ℕ)
    → IsPlayer p
    → Ship g.lake p y (x + 2)
    → g.lake y x ≡ land
    → IsWater (g.lake y (x + 1))
    → g.alive (p - 1) ≡ true
    → is_spent (g.lives (p - 1)) ≡ false
    → g.donemoving 4 ≡ false
    → ((moveto g 4 p).lake y x ≡ ship_code p) × ((moveto g 4 p).lives ≡ g.lives)
moveto_left_overland g p y x i s ground_here w live spare clear =
    let own : g.lake y (x + 1 + 1) ≡ ship_code p = ground (arith, s.left) in
    let moved =
      moveto-passes g 4 p y (x + 2) y x (left refl refl refl) i s
        (aground-left g p y (x + 1) i w own) (rammed-water g p y (x + 1) i clear w) live spare in
    rw moved (ground arith, refl)

-- The two cells that `crashcheck` looks at, where the ship `t` lies at the end of the move.
asked_cells :
    {l : Lake} {p q d y x ty tx : ℕ} (v : Voyage d y x ty tx)
    → Ship l p y x
    → Ship l q ty tx
    → (l ty (asked v) ≡ ship_code q)
      × ((l ty (asked v + 1) ≡ ship_code q) ⊎ (l ty (asked v + 1) ≡ ship_code p))
asked_cells (up _ _ _) s t = (t.left, inl t.right)
asked_cells (right _ _ _ _) s t = (t.left, inl t.right)
asked_cells (down _ _ _ _) s t = (t.left, inl t.right)
asked_cells (left e f h) s t = (t.right, inr (ground (arith, s.left)))

-- The place of a ship that has still to move passes the tests of `crashcheck`.
waiting-passes :
    (g : Game) (p q : ℕ) {d y x ty tx : ℕ} (v : Voyage d y x ty tx)
    → IsPlayer p
    → IsPlayer q
    → p < q
    → g.donemoving (q - 1) ≡ false
    → Ship g.lake p y x
    → Ship g.lake q ty tx
    → (is_aground g (pos (asked v)) (pos ty) ≡ false)
      × (is_rammed g p (pos (asked v)) (pos ty) ≡ false)
unfolding cell incr
waiting-passes g p q v i j later moving s t =
    let c = asked_cells v s t in
    (
      ground (
        arith,
        c,
        land-IsPlain p i,
        land-IsPlain q j,
        wreckage-IsPlain p i,
        wreckage-IsPlain q j,
      ),
      rw (c.0, target_player-ship_code q j, moving) (ground arith),
    )

-- If a ship moves onto the place of a ship with a higher number that has not moved in this phase,
-- and has not ended its moves, the other ship is gone from the lake without a crash: no cell of it
-- is left, and `findship` returns 0, the upper left corner, as its place.
pub moveto_overrun :
    (g : Game) (direction p q y x ty tx : ℕ) (v : Voyage direction y x ty tx)
    → IsPlayer p
    → IsPlayer q
    → p < q
    → Ship g.lake p y x
    → Ship g.lake q ty tx
    → g.donemoving (q - 1) ≡ false
    → g.alive (p - 1) ≡ true
    → is_spent (g.lives (p - 1)) ≡ false
    → IsAbsent (moveto g direction p).lake q
      × (findship (moveto g direction p).lake q ≡ 0)
      × ((moveto g direction p).alive ≡ g.alive)
moveto_overrun g d p q y x ty tx v i j later s t moving live spare =
    let free = waiting-passes g p q v i j later moving s t in
    let moved = moveto-passes g d p y x ty tx v i s free.0 free.1 live spare in
    rw moved (gone, findship-missing _ q gone, refl)
  where
    gone : IsAbsent (carried g.lake p y x ty tx) q
    gone r c hr hc e = ground (arith, t.only r c hr hc, sea-IsPlain q j, ship_code_inj p q i j)
