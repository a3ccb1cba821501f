-- ===== src/Sailing/Ships/Clear.antt =====
-- `moveto` of Structured_Programming/main.c where nothing is in the way.
use university_collection.Prelude.{ℕ, ◌+◌, ◌-◌, ◌/◌, ◌%◌, ◌<◌, ◌≡◌, ◌∙◌, ◌≢◌}
use university_collection.Prelude.{Bool, true, false, ltb, ◌==◌}
use university_collection.Prelude.{arith}
use university_collection.Prelude.Int.{ℤ, pos, decr, incr, is_spent}
use university_collection.Sailing.Lake.{Lake, put_pair, findship, ship_code, rows, columns}
use university_collection.Sailing.Lake.{sea, wreckage, land}
use university_collection.Sailing.Lake.Find.{Ship, row-findship, column-findship}
use university_collection.Sailing.Lake.Fleet.{
  IsPlayer, IsPlain, land-IsPlain, sea-IsPlain, wreckage-IsPlain,
}
use university_collection.Sailing.State.{Game, cell}
use university_collection.Sailing.Ships.{target_player}
use university_collection.Sailing.Ships.{is_aground, is_rammed, lose_if, collide, drown}
use university_collection.Sailing.Ships.{crashcheck, sail, moveto}

-- A cell that a ship can be on: no land, no wreck, no other ship.
pub record IsWater (code : ℕ) : Type 0 where
  pub dry : code ≢ land
  pub wrecked : code ≢ wreckage
  pub plain : IsPlain code

-- A move from `(y, x)` to `(ty, tx)` in a direction that stays inside the lake.
pub data Voyage (direction y x ty tx : ℕ) : Type 0 where
  up : direction ≡ 1 → y ≡ ty + 1 → tx ≡ x → Voyage direction y x ty tx
  right : direction ≡ 2 → ty ≡ y → tx ≡ x + 2 → tx + 1 < columns → Voyage direction y x ty tx
  down : direction ≡ 3 → ty ≡ y + 1 → ty < rows → tx ≡ x → Voyage direction y x ty tx
  left : direction ≡ 4 → ty ≡ y → x ≡ tx + 2 → Voyage direction y x ty tx

-- The lake after a ship went from `(y, x)` to `(ty, tx)`.
abbrev pub carried : Lake → (p y x ty tx : ℕ) → Lake
carried l p y x ty tx = put_pair (put_pair l y x sea) ty tx (ship_code p)

Ship-carried :
    {l : Lake} {p y x : ℕ} (ty tx : ℕ)
    → IsPlayer p
    → Ship l p y x
    → ty < rows
    → tx + 1 < columns
    → Ship (carried l p y x ty tx) p ty tx
Ship-carried {l} {p} {y} {x} ty tx i s hy hx = record {
  row = hy;
  column = hx;
  left = ground arith;
  right = ground arith;
  only = λ r c hr hc e. ground (arith, s.only r c hr hc, sea-IsPlain p i);
}

target_player-water : (code : ℕ) → IsWater code → target_player code ≡ 5
unfolding target_player ship_code
target_player-water code w =
    let a = w.plain 1 (omega arith) in
    let b = w.plain 2 (omega arith) in
    let c = w.plain 3 (omega arith) in let d = w.plain 4 (omega arith) in ground arith

-- `crashcheck` has nothing to say of a place that is free.
crashcheck-clear :
    (g : Game) (p : ℕ) (x y : ℤ)
    → is_aground g x y ≡ false
    → is_rammed g p x y ≡ false
    → is_spent (g.lives (p - 1)) ≡ false
    → crashcheck g p x y ≡ (g, true)
unfolding crashcheck lose_if collide drown
crashcheck-clear g p x y a r s = rw (a, r, s)

sail-clear :
    (g : Game) (p y x ty tx : ℕ) (cy cx : ℤ) (edge inside : ℕ → Bool)
    → edge (findship g.lake p) ≡ false
    → inside (findship g.lake p) ≡ true
    → is_aground g cx cy ≡ false
    → is_rammed g p cx cy ≡ false
    → is_spent (g.lives (p - 1)) ≡ false
    → sail g p y x ty tx cy cx edge inside ≡ record g { lake = carried g.lake p y x ty tx }
unfolding sail lose_if
sail-clear g p y x ty tx cy cx edge inside e n a r s = rw (e, crashcheck-clear g p cx cy a r s, n)

-- A place of open water, at the signed index that `crashcheck` is given.
aground-water :
    (g : Game) (y x : ℕ)
    → IsWater (g.lake y x)
    → IsWater (g.lake y (x + 1))
    → is_aground g (pos x) (pos y) ≡ false
unfolding cell incr
aground-water g y x a b = ground (arith, a.dry, a.wrecked, b.dry, b.wrecked)

pub rammed-water :
    (g : Game) (p y x : ℕ)
    → IsPlayer p
    → g.donemoving 4 ≡ false
    → IsWater (g.lake y x)
    → is_rammed g p (pos x) (pos y) ≡ false
unfolding cell
rammed-water g p y x i clear w =
    rw (target_player-water (g.lake y x) w, clear) (ground (arith, i.last))

-- On the way left the right half of the place asked about is the ship itself.
pub aground-left :
    (g : Game) (p y x : ℕ)
    → IsPlayer p
    → IsWater (g.lake y x)
    → g.lake y (x + 1) ≡ ship_code p
    → is_aground g (pos x) (pos y) ≡ false
unfolding cell incr
aground-left g p y x i w own =
    ground (arith, w.dry, w.wrecked, land-IsPlain p i, wreckage-IsPlain p i)

-- The column that `crashcheck` is asked about: on the way left it is not the ship's new one.
abbrev pub asked : {d y x ty tx : ℕ} → Voyage d y x ty tx → ℕ
asked {tx} (up _ _ _) = tx
asked {tx} (right _ _ _ _) = tx
asked {tx} (down _ _ _ _) = tx
asked {tx} (left _ _ _) = tx + 1

-- `moveto` is the case of its direction, with the tests for the border passed.
pub record Sails (g : Game) (d p y x ty tx cx : ℕ) : Type 0 where
  pub edge : ℕ → Bool
  pub inside : ℕ → Bool
  pub same : moveto g d p ≡ sail g p y x ty tx (pos ty) (pos cx) edge inside
  pub off : edge (findship g.lake p) ≡ false
  pub on : inside (findship g.lake p) ≡ true

pub moveto-Sails :
    (g : Game) {d : ℕ} (p : ℕ) {y x ty tx : ℕ} (v : Voyage d y x ty tx)
    → Ship g.lake p y x
    → g.alive (p - 1) ≡ true
    → Sails g d p y x ty tx (asked v)
unfolding moveto decr
moveto-Sails g p {y} {x} {ty} {tx} (up e f h) s live = record {
  edge = λ n. n / 100 == 0;
  inside = λ n. ltb 0 (n / 100);
  same =
      let some_row : (y == 0) ≡ false = ground arith in
      let back : y - 1 ≡ ty = omega arith in
      rw (live, e, row-findship s, column-findship s, some_row, back, ← h);
  off = rw (row-findship s) (ground arith);
  on = rw (row-findship s) (ground arith);
}
moveto-Sails g p {y} {x} {ty} {tx} (right e f h k) s live = record {
  edge = λ n. ltb 61 (n % 100);
  inside = λ n. ltb (n % 100) 62;
  same = rw (live, e, row-findship s, column-findship s, ← h, ← f);
  off = rw (column-findship s) (ground arith);
  on = rw (column-findship s) (ground arith);
}
moveto-Sails g p {y} {x} {ty} {tx} (down e f h k) s live = record {
  edge = λ n. n / 100 == 24;
  inside = λ n. ltb (n / 100) 24;
  same = rw (live, e, row-findship s, column-findship s, ← f, ← k);
  off = rw (row-findship s) (ground arith);
  on = rw (row-findship s) (ground arith);
}
moveto-Sails g p {y} {x} {ty} {tx} (left e f h) s live = record {
  edge = λ n. ltb (n % 100) 2;
  inside = λ n. ltb 1 (n % 100);
  same =
      let some_column : (x == 0) ≡ false = ground arith in
      let back : x - 2 ≡ tx = omega arith in
      let one : x - 1 ≡ tx + 1 = omega arith in
      rw (live, e, row-findship s, column-findship s, some_column, back, one, ← f);
  off = rw (column-findship s) (ground arith);
  on = rw (column-findship s) (ground arith);
}

Voyage-inside :
    {l : Lake} {p d y x ty tx : ℕ}
    → Ship l p y x
    → Voyage d y x ty tx
    → (ty < rows) × (tx + 1 < columns)
Voyage-inside s (up e f h) = omega (arith, s.row, s.column)
Voyage-inside s (right e f h k) = omega (arith, s.row)
Voyage-inside s (down e f h k) = omega (arith, s.column)
Voyage-inside s (left e f h) = omega (arith, s.row, s.column)

-- A ship goes where `crashcheck` has nothing to say of the place that it is asked about.
pub moveto-passes :
    (g : Game) (d p y x ty tx : ℕ)
    → (v : Voyage d y x ty tx) → IsPlayer p
    → Ship g.lake p y x
    → is_aground g (pos (asked v)) (pos ty) ≡ false
    → is_rammed g p (pos (asked v)) (pos ty) ≡ false
    → g.alive (p - 1) ≡ true
    → is_spent (g.lives (p - 1)) ≡ false
    → moveto g d p ≡ record g { lake = carried g.lake p y x ty tx }
moveto-passes g d p y x ty tx v i s a r live spare =
    let m = moveto-Sails g p v s live in
    m.same ∙ sail-clear g p y x ty tx (pos ty) (pos (asked v)) m.edge m.inside m.off m.on a r spare

-- Open water passes both tests.
water-passes :
    (g : Game) (p : ℕ) {d y x ty tx : ℕ} (v : Voyage d y x ty tx)
    → IsPlayer p
    → Ship g.lake p y x
    → IsWater (g.lake ty tx)
    → IsWater (g.lake ty (tx + 1))
    → g.donemoving 4 ≡ false
    → (is_aground g (pos (asked v)) (pos ty) ≡ false)
      × (is_rammed g p (pos (asked v)) (pos ty) ≡ false)
water-passes g p {ty} {tx} (up _ _ _) i s a b clear =
    (aground-water g ty tx a b, rammed-water g p ty tx i clear a)
water-passes g p {ty} {tx} (right _ _ _ _) i s a b clear =
    (aground-water g ty tx a b, rammed-water g p ty tx i clear a)
water-passes g p {ty} {tx} (down _ _ _ _) i s a b clear =
    (aground-water g ty tx a b, rammed-water g p ty tx i clear a)
water-passes g p {ty} {tx} (left e f h) i s a b clear =
    let own : g.lake ty (tx + 1 + 1) ≡ ship_code p = ground (arith, s.left) in
    (aground-left g p ty (tx + 1) i b own, rammed-water g p ty (tx + 1) i clear b)

-- A living ship that can reach the place `(ty, tx)` by one move, both cells of which are free
-- water, goes there, and nothing but its four cells of the lake changes. The flag behind the end of
-- `donemoving`, which `crashcheck` reads where no ship is hit, is clear.
pub moveto-clear :
    (g : Game) (direction p y x ty tx : ℕ)
    → IsPlayer p
    → Ship g.lake p y x
    → Voyage direction y x ty tx
    → IsWater (g.lake ty tx)
    → IsWater (g.lake ty (tx + 1))
    → g.alive (p - 1) ≡ true
    → is_spent (g.lives (p - 1)) ≡ false
    → g.donemoving 4 ≡ false
    → (moveto g direction p ≡ record g { lake = carried g.lake p y x ty tx })
      × Ship (moveto g direction p).lake p ty tx
moveto-clear g d p y x ty tx i s v a b live spare clear =
    let free = water-passes g p v i s a b clear in
    let moved = moveto-passes g d p y x ty tx v i s free.0 free.1 live spare in
    let reach = Voyage-inside s v in (moved, rw moved (Ship-carried ty tx i s reach.0 reach.1))
