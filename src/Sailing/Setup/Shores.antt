-- ===== src/Sailing/Setup/Shores.antt =====
-- The lake that `lake_reset` of Structured_Programming/main.c makes.
use university_collection.Prelude.{ℕ, zero, suc, ◌+◌, ◌-◌, ◌≤◌, ◌<◌, ◌≡◌, refl, ap, ◌∙◌, ◌%◌}
use university_collection.Prelude.{◌&&◌, leb, ltb, ◌==◌, if◌then◌else◌, arith}
use university_collection.Prelude.{List, [], ◌∷◌, subst}
use university_collection.Sailing.Lake.{Lake, put, sea, land, finish, columns, rows}
use university_collection.Sailing.Round.{setfinishline, finish_cells}
use university_collection.Sailing.Setup.{fill_line, set_lake_line, set_lines, shores, lake_reset}

fill_line_lem :
    (f : ℕ → ℕ) (line n x : ℕ) (l : Lake) (r c : ℕ)
    → fill_line f line n x l r c
      ≡ (if r == line && (leb x c && ltb c (x + n)) then f (l r c) else l r c)
unfolding fill_line
fill_line_lem f line zero x l r c = ground arith
fill_line_lem f line (suc n) x l r c =
    fill_line_lem f line n (suc x) (put l line x (f (l line x))) r c ∙ ground arith

-- A line of the lake: land from `start` up to `end`, sea elsewhere.
abbrev shore : (start end c : ℕ) → ℕ
shore start end c = if leb start c && ltb c end then land else sea

set_lake_line_lem :
    (line start end : ℕ) (l : Lake) (r c : ℕ)
    → start ≤ end
    → end ≤ columns
    → set_lake_line line start end l r c
      ≡ (if r == line && ltb c columns then shore start end c else l r c)
unfolding set_lake_line
set_lake_line_lem line start end l r c h k =
    rw
      (
        fill_line_lem (λ v. if v == 0 then sea else v) line columns 0
            (fill_line (λ _. land) line (end - start) start (fill_line (λ _. 0) line columns 0 l)) r
            c,
        fill_line_lem (λ _. land) line (end - start) start (fill_line (λ _. 0) line columns 0 l) r
            c,
        fill_line_lem (λ _. 0) line columns 0 l r c,
      )
      (ground arith)

finish_cells_lem :
    (n i : ℕ) (l : Lake) (r c : ℕ)
    → finish_cells n i l r c ≡ (if r == 6 && (leb i c && ltb c (i + n)) then finish else l r c)
unfolding finish_cells
finish_cells_lem zero i l r c = ground arith
finish_cells_lem (suc n) i l r c =
    finish_cells_lem n (suc i) (if i % 2 == 0 then put l 6 i finish else put l 6 i finish) r c
    ∙ ground arith

pub setfinishline_lem :
    (l : Lake) (r c : ℕ) → setfinishline l r c ≡ (if r == 6 && ltb c 12 then finish else l r c)
unfolding setfinishline
setfinishline_lem l r c = finish_cells_lem 12 0 l r c ∙ ground arith

abbrev count_lines : List (ℕ × ℕ) → ℕ
count_lines [] = 0
count_lines (_ ∷ rest) = suc (count_lines rest)

-- The extent of the land in the `i`-th line.
abbrev pub extent : List (ℕ × ℕ) → ℕ → ℕ × ℕ
extent [] i = (0, 0)
extent (e ∷ rest) zero = e
extent (e ∷ rest) (suc i) = extent rest i

abbrev AllLines {ℓ} : (ℕ × ℕ → Type ℓ) → List (ℕ × ℕ) → Type ℓ
AllLines P [] = Unit
AllLines P (e ∷ rest) = P e × AllLines P rest

extent-All {ℓ} :
    (P : ℕ × ℕ → Type ℓ) (ls : List (ℕ × ℕ)) (i : ℕ)
    → AllLines P ls
    → i < count_lines ls
    → P (extent ls i)
extent-All P [] i a h = absurd (omega arith)
extent-All P (e ∷ rest) zero a h = a.0
extent-All P (e ∷ rest) (suc i) a h = extent-All P rest i a.1 (omega arith)

abbrev IsExtent : ℕ × ℕ → Type 0
IsExtent (start, end) = (start ≤ end) × (end ≤ columns)

abbrev pub shore_at : ℕ × ℕ → ℕ → ℕ
shore_at (start, end) c = shore start end c

set_lines_before :
    (k : ℕ) (ls : List (ℕ × ℕ)) (l : Lake) (r c : ℕ)
    → AllLines IsExtent ls
    → r < k
    → set_lines k ls l r c ≡ l r c
unfolding set_lines
set_lines_before k [] l r c a h = refl
set_lines_before k ((s, e) ∷ rest) l r c (ok, a) h =
    set_lines_before (suc k) rest (set_lake_line k s e l) r c a (omega arith)
    ∙ set_lake_line_lem k s e l r c ok.0 ok.1
    ∙ ground arith

set_lines_lem :
    (k : ℕ) (ls : List (ℕ × ℕ)) (l : Lake) (i c : ℕ)
    → AllLines IsExtent ls
    → i < count_lines ls
    → c < columns
    → set_lines k ls l (k + i) c ≡ shore_at (extent ls i) c
unfolding set_lines
set_lines_lem k [] l i c a h hc = absurd (omega arith)
set_lines_lem k ((s, e) ∷ rest) l zero c (ok, a) h hc =
    set_lines_before (suc k) rest (set_lake_line k s e l) (k + 0) c a (omega arith)
    ∙ set_lake_line_lem k s e l (k + 0) c ok.0 ok.1
    ∙ ground arith
set_lines_lem k ((s, e) ∷ rest) l (suc i) c (ok, a) h hc =
    let shift : k + suc i ≡ suc k + i = omega arith in
    rw shift (set_lines_lem (suc k) rest (set_lake_line k s e l) i c a (omega arith) hc)

-- The lake after `lake_reset`, whatever it was before: land where the table of extents has it, the
-- finish line in the first twelve columns of line 6, and sea elsewhere.
pub lake_reset_lem :
    (l : Lake) (r c : ℕ)
    → r < rows
    → c < columns
    → lake_reset l r c ≡ (if r == 6 && ltb c 12 then finish else shore_at (extent shores r) c)
unfolding lake_reset
lake_reset_lem l r c hr hc =
    let line : set_lines 0 shores l r c ≡ shore_at (extent shores r) c =
      subst (λ q. set_lines 0 shores l q c ≡ shore_at (extent shores r) c)
        (let e : 0 + r ≡ r = omega arith in e) (set_lines_lem 0 shores l r c (omega arith) hr hc) in
    setfinishline_lem (set_lines 0 shores l) r c
    ∙ ap (λ v. if r == 6 && ltb c 12 then finish else v) line
