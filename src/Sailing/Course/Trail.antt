-- ===== src/Sailing/Course/Trail.antt =====
-- The course of moves that leads over the lake of Structured_Programming/main.c from a ship's place
-- to the cursor of `declaremove`.
use university_collection.Prelude.{ℕ, zero, suc, ◌+◌, ◌%◌, ◌<◌, ◌≡◌, ◌≢◌, arith}
use university_collection.Sailing.Lake.{Lake, rows, columns, land, wreckage}
use university_collection.Sailing.Ships.Clear.{Voyage, up, right, down, left}

-- A place for a ship: inside the lake, on a pair of columns.
pub record Inside (y x : ℕ) : Type 0 where
  pub row : y < rows
  pub column : x + 1 < columns
  pub even : x % 2 ≡ 0

-- No cell of the place is land or a wreck.
pub record IsNavigable (l : Lake) (y x : ℕ) : Type 0 where
  pub left_land : l y x ≢ land
  pub left_wreck : l y x ≢ wreckage
  pub right_land : l y (x + 1) ≢ land
  pub right_wreck : l y (x + 1) ≢ wreckage

-- The first `n` codes lead from `(sy, sx)` to `(y, x)` by moves inside the lake, none of which ends
-- on land or a wreck.
abbrev pub Trail : Lake → (ℕ → ℕ) → (sy sx : ℕ) → (n y x : ℕ) → Type 0
Trail l codes sy sx zero y x = (y ≡ sy) × (x ≡ sx)
Trail l codes sy sx (suc n) y x =
    (y' : ℕ) × (x' : ℕ) × Trail l codes sy sx n y' x'
    × Voyage (codes n) y' x' y x
    × IsNavigable l y x
    × Inside y x

pub Trail-Inside :
    (l : Lake) (codes : ℕ → ℕ) (sy sx n y x : ℕ)
    → Inside sy sx
    → Trail l codes sy sx n y x
    → Inside y x
Trail-Inside l codes sy sx zero y x start (e, f) = record {
  row = omega (arith, start.row);
  column = omega (arith, start.column);
  even = omega (arith, start.even);
}
Trail-Inside l codes sy sx (suc n) y x start t = t.5

-- Codes from `n` on do not matter.
pub Trail-frame :
    (l : Lake) (codes codes' : ℕ → ℕ) (sy sx n y x : ℕ)
    → ((k : ℕ) → k < n → codes' k ≡ codes k)
    → Trail l codes sy sx n y x
    → Trail l codes' sy sx n y x
Trail-frame l codes codes' sy sx zero y x same t = t
Trail-frame l codes codes' sy sx (suc n) y x same (y', x', t, v, w, i) = (
  y',
  x',
  Trail-frame l codes codes' sy sx n y' x' (λ k h. same k (omega arith)) t,
  rw (same n (omega arith)) v,
  w,
  i,
)

-- A move is determined by its direction and its end.
Voyage-start : {d y x z w ty tx : ℕ} → Voyage d y x ty tx → Voyage d z w ty tx → (y ≡ z) × (x ≡ w)
Voyage-start (up e f h) (up _ i j) = omega arith
Voyage-start (right e f h k) (right _ i j _) = omega arith
Voyage-start (down e f h k) (down _ i _ j) = omega arith
Voyage-start (left e f h) (left _ i j) = omega arith
Voyage-start (up e _ _) (right f _ _ _) = absurd (omega arith)
Voyage-start (up e _ _) (down f _ _ _) = absurd (omega arith)
Voyage-start (up e _ _) (left f _ _) = absurd (omega arith)
Voyage-start (right e _ _ _) (up f _ _) = absurd (omega arith)
Voyage-start (right e _ _ _) (down f _ _ _) = absurd (omega arith)
Voyage-start (right e _ _ _) (left f _ _) = absurd (omega arith)
Voyage-start (down e _ _ _) (up f _ _) = absurd (omega arith)
Voyage-start (down e _ _ _) (right f _ _ _) = absurd (omega arith)
Voyage-start (down e _ _ _) (left f _ _) = absurd (omega arith)
Voyage-start (left e _ _) (up f _ _) = absurd (omega arith)
Voyage-start (left e _ _) (right f _ _ _) = absurd (omega arith)
Voyage-start (left e _ _) (down f _ _ _) = absurd (omega arith)

-- Without its last move, which goes from `(ny, nx)` to `(y, x)`, a course ends at `(ny, nx)`.
pub Trail-back :
    (l : Lake) (codes : ℕ → ℕ) (sy sx m n y x d ny nx : ℕ)
    → m ≡ suc n
    → codes n ≡ d
    → Voyage d ny nx y x
    → Trail l codes sy sx m y x
    → Trail l codes sy sx n ny nx
Trail-back l codes sy sx zero n y x d ny nx e f v t = absurd (omega arith)
Trail-back l codes sy sx (suc m) n y x d ny nx e f v (y', x', t, w, _, _) =
    let same : n ≡ m = omega arith in
    let from = Voyage-start v (rw (← same, f) at w) in rw (same, from.0, from.1) t
