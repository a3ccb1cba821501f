-- ===== src/Sailing/Round/Saved.antt =====
-- The places of the ships that the wind took, as `moveplayers` of Structured_Programming/main.c saves
-- them.
use university_collection.Prelude.{ℕ, suc, ◌+◌, ◌-◌, ◌/◌, ◌%◌, ◌<◌, ◌≡◌, sym, ap, ◌∙◌, subst}
use university_collection.Prelude.{fun_ext, ◌≢◌, ◌⊎◌, inl, inr, Bool, true, ◌&&◌, ◌==◌}
use university_collection.Prelude.{if_elim, ==→≡, arith}
use university_collection.Sailing.Lake.{Lake, rows, columns, put, put_pair, findship, ship_code}
use university_collection.Sailing.Lake.Fleet.{IsPlayer, Fleet, IsAbsent, IsPlain, ship_code_lem}
use university_collection.Sailing.Lake.Fleet.{put_pair_lem}
use university_collection.Sailing.Lake.Locate.{Located, findship-Located}
use university_collection.Sailing.State.{Game}
use university_collection.Sailing.Round.{for4, save_place, paint_saved}

-- What holds after each round of a loop over the players.
pub for4-induction {ℓ κ} :
    {A : Type ℓ} (P : ℕ → A → Type κ) (body : ℕ → A → A) (g : A)
    → P 0 g
    → ((i : ℕ) (a : A) → i < 4 → P i a → P (suc i) (body i a))
    → P 4 (for4 body g)
for4-induction P body g base step =
    step 3 _ (omega arith)
      (step 2 _ (omega arith) (step 1 _ (omega arith) (step 0 _ (omega arith) base)))

-- All cells of `p` are in the pair of columns of `x` on row `y`.
abbrev InPair : Lake → (p y x : ℕ) → Type 0
InPair l p y x =
    (r c : ℕ) → r < rows → c < columns → l r c ≡ ship_code p → (r ≡ y) × (c / 2 ≡ x / 2)

pub record Place (y x : ℕ) : Type 0 where
  pub row : y < rows
  pub column : x + 1 < columns
  pub even : x % 2 ≡ 0

Located-InPair :
    {l : Lake} (p : ℕ)
    → Located l p
    → Place (findship l p / 100) (findship l p % 100)
      × InPair l p (findship l p / 100) (findship l p % 100)
Located-InPair {l} p at = (
  record { row = at.row; column = at.column; even = at.even },
  elim at.known [
    | inl s ↦ λ r c hr hc e. let o = s.only r c hr hc e in (o.0, omega (arith, o, at.even))
    | inr absent ↦ λ r c hr hc e. absurd (absent r c hr hc e)
  ],
)

pub marked-IsPlain : IsPlain 7219
marked-IsPlain p i = omega (arith, ship_code_lem p i)

pub next-IsPlayer : (i : ℕ) → i < 4 → IsPlayer (i + 1)
next-IsPlayer i h = omega arith

pub paint_saved-put_pair :
    (g : Game) (i v y x : ℕ) → g.savedpos i ≡ (y, x + 1) → paint_saved g i v ≡ put_pair g.lake y x v
paint_saved-put_pair g i v y x e =
    ap (λ (q : ℕ × ℕ). put (put g.lake q.0 q.1 v) q.0 (q.1 - 1) v) e
    ∙ fun_ext (λ r. fun_ext (λ c. ground arith))

-- Plain writes take cells away from a ship, never to it.
pub InPair-put_plain :
    {l : Lake} (p y x v u w : ℕ)
    → u ≢ ship_code p
    → InPair l p y x
    → v % 2 ≡ 0
    → InPair (put_pair l w v u) p y x
InPair-put_plain {l} p y x v u w ne h even r c hr hc e =
    h r c hr hc (ground (arith, put_pair_lem l w v u r c even))

pub IsAbsent-put :
    {l : Lake} (p w v u : ℕ)
    → u ≢ ship_code p
    → v % 2 ≡ 0
    → IsAbsent l p
    → IsAbsent (put_pair l w v u) p
IsAbsent-put {l} p w v u ne even h r c hr hc e =
    h r c hr hc (ground (arith, put_pair_lem l w v u r c even))

-- A ship whose place was all of it is gone when that place is painted.
pub IsAbsent-painted :
    {l : Lake} (p y x u : ℕ)
    → u ≢ ship_code p
    → x % 2 ≡ 0
    → InPair l p y x
    → IsAbsent (put_pair l y x u) p
IsAbsent-painted {l} p y x u ne even h r c hr hc e =
    ground (arith, h r c hr hc, put_pair_lem l y x u r c even)

-- What `s`, the saved place of player number `i + 1`, says of the lake `l`: nothing, or where all
-- cells of the ship are; after the first `k` places are painted, there are no such cells.
pub record Blown (k : ℕ) (l : Lake) (i : ℕ) (s : ℕ × ℕ) (alive : Bool) : Type 0 where
  pub y : ℕ
  pub x : ℕ
  pub at : s ≡ (y, x + 1)
  pub place : Place y x
  pub live : alive ≡ true
  pub home : InPair l (i + 1) y x
  pub gone : i < k → IsAbsent l (i + 1)

abbrev pub Slot : ℕ → Lake → ℕ → ℕ × ℕ → Bool → Type 0
Slot k l i s alive = (s ≡ (0, 0)) ⊎ Blown k l i s alive

pub record Saving (l : Lake) (alive : ℕ → Bool) (g : Game) : Type 0 where
  pub lake : g.lake ≡ l
  pub living : g.alive ≡ alive
  pub each : (i : ℕ) → i < 4 → Slot 0 l i (g.savedpos i) (alive i)

pub save_place-Saving :
    (affected : ℕ → Bool) (l : Lake) (alive : ℕ → Bool) (i : ℕ) (g : Game)
    → Fleet l
    → i < 4
    → Saving l alive g
    → Saving l alive (save_place affected i g)
unfolding save_place
save_place-Saving affected l alive i g f few s =
    if_elim (Saving l alive) (affected i && g.alive i) _ _
      (λ blown. record {
        lake = s.lake;
        living = s.living;
        each = λ j hj.
            if_elim (λ p. Slot 0 l j p (alive j)) (j == i) _ _
              (λ same.
                let e = ==→≡ j i same in
                let at =
                  Located-InPair {l = l} (i + 1)
                    (findship-Located (i + 1) (next-IsPlayer i few) f) in
                inr (record {
                  y = findship l (i + 1) / 100;
                  x = findship l (i + 1) % 100;
                  at = ap (λ m. (findship m (i + 1) / 100, findship m (i + 1) % 100 + 1)) s.lake;
                  place = at.0;
                  live = ground (arith, ap (λ a. a i) s.living, e);
                  home =
                      subst
                        (λ m.
                          InPair l (m + 1) (findship l (i + 1) / 100) (findship l (i + 1) % 100))
                        (sym e) at.1;
                  gone = λ h. absurd (omega (arith, h));
                }))
              (λ other. s.each j hj);
      })
      (λ rest. s)
