-- ===== src/Sailing/Ships/Keep.antt =====
-- What moving ships in Structured_Programming/main.c keeps: the shape of the fleet, and the memory
-- around the lake.
use university_collection.Prelude.{ℕ, ◌+◌, ◌-◌, ◌/◌, ◌%◌, ◌<◌, ◌≡◌, refl, sym, ap, ◌∙◌, subst}
use university_collection.Prelude.{◌⊎◌, inl, inr, Bool, true, false, not, ◌&&◌, ◌==◌}
use university_collection.Prelude.{if_elim, Bool-cases, arith}
use university_collection.Prelude.Int.{ℤ, is_spent}
use university_collection.Sailing.Lake.{Lake, in_grid, put_pair, findship, ship_code, rows, columns}
use university_collection.Sailing.Lake.{player1, player2, player3, player4, sea, wreckage}
use university_collection.Sailing.Lake.Fleet.{IsPlayer, Fleet, IsAbsent, Fleet-put_plain}
use university_collection.Sailing.Lake.Fleet.{Fleet-put_ship, IsAbsent-put_plain, sea-IsPlain}
use university_collection.Sailing.Lake.Fleet.{wreckage-IsPlain}
use university_collection.Sailing.Lake.Locate.{findship-Located}
use university_collection.Sailing.State.{Game, cell, update}
use university_collection.Sailing.Ships.{lose_life, wreck_place, wreck, target_player}
use university_collection.Sailing.Ships.{
  ram, is_aground, is_rammed, place_target, lose_if, collide, drown,
}
use university_collection.Sailing.Ships.{crashcheck, settle, sail, moveto}

-- From lake `l` to lake `m`: the fleet stays a fleet and nothing outside the array is written.
pub record Keeps (l m : Lake) : Type 0 where
  pub fleet : Fleet m
  pub outside : (r c : ℕ) → in_grid r c ≡ false → m r c ≡ l r c

pub Keeps-trans : {l m n : Lake} → Keeps l m → Keeps m n → Keeps l n
Keeps-trans a b = record { fleet = b.fleet; outside = λ r c h. b.outside r c h ∙ a.outside r c h }

pub put_pair-outside :
    (l : Lake) (y x v r c : ℕ)
    → y < rows
    → x + 1 < columns
    → in_grid r c ≡ false
    → put_pair l y x v r c ≡ l r c
put_pair-outside l y x v r c hy hx h = ground arith

pub wreck_place-player : (g : Game) (t : ℕ) → IsPlayer t → wreck_place g t ≡ findship g.lake t
unfolding wreck_place
wreck_place-player g t i = ground (arith, i.first)

wreck-Keeps : (g : Game) (t : ℕ) → IsPlayer t → Fleet g.lake → Keeps g.lake (wreck g t).lake
unfolding wreck
wreck-Keeps g t i f =
    let at = findship-Located t i f in
    rw (wreck_place-player g t i) (record {
      fleet = Fleet-put_plain _ _ wreckage at.even wreckage-IsPlain f;
      outside = λ r c h. put_pair-outside g.lake _ _ wreckage r c at.row at.column h;
    })

-- A wreck leaves no cell of the player's ship.
wreck-IsAbsent : (g : Game) (t : ℕ) → IsPlayer t → Fleet g.lake → IsAbsent (wreck g t).lake t
unfolding wreck
wreck-IsAbsent g t i f =
    let at = findship-Located t i f in
    rw (wreck_place-player g t i)
      (IsAbsent-put_plain _ _ wreckage t at.even i (wreckage-IsPlain t i) at.known)

target_player-cases : (code : ℕ) → IsPlayer (target_player code) ⊎ (target_player code ≡ 5)
unfolding target_player
target_player-cases code = elim (Bool-cases (code == player4)) [
  | inl e ↦ rw e (inl (omega arith))
  | inr e ↦ elim (Bool-cases (code == player3)) [
    | inl k ↦ rw (e, k) (inl (omega arith))
    | inr k ↦ elim (Bool-cases (code == player2)) [
      | inl m ↦ rw (e, k, m) (inl (omega arith))
      | inr m ↦ elim (Bool-cases (code == player1)) [
        | inl n ↦ rw (e, k, m, n) (inl (omega arith))
        | inr n ↦ rw (e, k, m, n) (inr refl)
      ]
    ]
  ]
]

Keeps-refl : {l : Lake} → Fleet l → Keeps l l
Keeps-refl f = record { fleet = f; outside = λ r c h. refl }

ram-Keeps : (g : Game) (p t : ℕ) → IsPlayer t → Fleet g.lake → Keeps g.lake (ram g p t).lake
unfolding ram lose_life
ram-Keeps g p t i f =
    let h = lose_life (lose_life g p) t in
    elim (Bool-cases (is_spent (h.lives (t - 1)))) [
      | inl e ↦ rw e (wreck-Keeps (record h { alive = update h.alive (t - 1) false }) t i f)
      | inr e ↦ rw e (Keeps-refl f)
    ]

lose_if-lake : (g : Game) (p : ℕ) (b : Bool) → (lose_if g p b).lake ≡ g.lake
unfolding lose_if lose_life
lose_if-lake g p true = refl
lose_if-lake g p false = refl

drown-lake : (g : Game) (p : ℕ) → (drown g p).lake ≡ g.lake
unfolding drown
drown-lake g p = elim (Bool-cases (is_spent (g.lives (p - 1)))) [ inl e ↦ rw e | inr e ↦ rw e ]

collide-Keeps :
    (g : Game) (p t : ℕ) (b : Bool)
    → (b ≡ true → IsPlayer t)
    → Fleet g.lake
    → Keeps g.lake (collide g p t b).lake
unfolding collide
collide-Keeps g p t true i f = ram-Keeps g p t (i refl) f
collide-Keeps g p t false i f = Keeps-refl f

-- Only a real player is rammed, if the flag behind the end of `donemoving` is clear.
is_rammed-IsPlayer :
    (g : Game) (p : ℕ) (x y : ℤ)
    → IsPlayer p
    → g.donemoving 4 ≡ false
    → is_rammed g p x y ≡ true
    → IsPlayer (place_target g x y)
is_rammed-IsPlayer g p x y i clear e = elim (target_player-cases (cell g y x)) [
  | inl player ↦ player
  | inr five ↦ absurd (ground (arith, ap g.donemoving (ap (λ t. t - 1) five), i.last))
]

crashcheck-Keeps :
    (g : Game) (p : ℕ) (x y : ℤ)
    → IsPlayer p
    → g.donemoving 4 ≡ false
    → Fleet g.lake
    → Keeps g.lake (crashcheck g p x y).0.lake
unfolding crashcheck
crashcheck-Keeps g p x y i clear f =
    let h = lose_if g p (is_aground g x y) in
    let same = lose_if-lake g p (is_aground g x y) in
    let t = place_target g x y in
    rw (drown-lake (collide h p t (is_rammed g p x y)) p) (
      subst (λ l. Keeps l (collide h p t (is_rammed g p x y)).lake) same
        (collide-Keeps h p t (is_rammed g p x y) (is_rammed-IsPlayer g p x y i clear)
          (subst Fleet (sym same) f)))

-- A ship that may move has changed nothing on the lake yet.
crashcheck-free :
    (g : Game) (p : ℕ) (x y : ℤ)
    → (crashcheck g p x y).1 ≡ true
    → (crashcheck g p x y).0.lake ≡ g.lake
unfolding crashcheck collide lose_if
crashcheck-free g p x y e =
    let a : is_aground g x y ≡ false = ground arith in
    let r : is_rammed g p x y ≡ false = ground arith in
    rw (
      drown-lake
          (collide (lose_if g p (is_aground g x y)) p (place_target g x y) (is_rammed g p x y)) p,
      a,
      r,
    )

lose_if-donemoving : (g : Game) (p : ℕ) (b : Bool) → (lose_if g p b).donemoving ≡ g.donemoving
unfolding lose_if lose_life
lose_if-donemoving g p true = refl
lose_if-donemoving g p false = refl

-- A ship that is taken from its place and set on another.
carry-Keeps :
    (l : Lake) (p ty tx : ℕ)
    → IsPlayer p
    → Fleet l
    → ty < rows
    → tx + 1 < columns
    → tx % 2 ≡ 0
    → Keeps l
        (put_pair (put_pair l (findship l p / 100) (findship l p % 100) sea) ty tx (ship_code p))
carry-Keeps l p ty tx i f hy hx even =
    let at = findship-Located p i f in
    let y = findship l p / 100 in
    let x = findship l p % 100 in
    let cleared = put_pair l y x sea in
    record {
      fleet =
          Fleet-put_ship ty tx p even i
            (IsAbsent-put_plain y x sea p at.even i (sea-IsPlain p i) at.known)
            (Fleet-put_plain y x sea at.even sea-IsPlain f);
      outside = λ r c h.
          put_pair-outside cleared ty tx (ship_code p) r c hy hx h
          ∙ put_pair-outside l y x sea r c at.row at.column h;
    }

settle-Keeps : (g : Game) (p : ℕ) → IsPlayer p → Fleet g.lake → Keeps g.lake (settle g p).lake
unfolding settle
settle-Keeps g p i f =
    if_elim (λ (h : Game). Keeps g.lake h.lake) (not (g.alive (p - 1))) _ _
      (λ _. wreck-Keeps g p i f) (λ _. Keeps-refl f)

sail-Keeps :
    (g : Game) (p ty tx : ℕ) (cy cx : ℤ) (edge inside : ℕ → Bool)
    → IsPlayer p
    → g.donemoving 4 ≡ false
    → Fleet g.lake
    → (inside (findship g.lake p) ≡ true → (ty < rows) × (tx + 1 < columns) × (tx % 2 ≡ 0))
    → Keeps g.lake
        (sail g p (findship g.lake p / 100) (findship g.lake p % 100) ty tx cy cx edge inside).lake
unfolding sail
sail-Keeps g p ty tx cy cx edge inside i clear f place =
    elim (Bool-cases (r.1 && inside (findship r.0.lake p))) [
      | inl go ↦
          let same = crashcheck-free g1 p cx cy (ground arith) ∙ g1_same in
          let ok = place (ground (arith, ap (λ l. inside (findship l p)) same)) in
          rw (go, same) (carry-Keeps g.lake p ty tx i f ok.0 ok.1 ok.2)
      | inr stay ↦ rw stay (Keeps-trans after (settle-Keeps r.0 p i after.fleet))
    ]
  where
    g1 : Game
    g1 = lose_if g p (edge (findship g.lake p))

    g1_same : g1.lake ≡ g.lake
    g1_same = lose_if-lake g p (edge (findship g.lake p))

    r : Game × Bool
    r = crashcheck g1 p cx cy

    after : Keeps g.lake r.0.lake
    after =
        subst (λ l. Keeps l r.0.lake) g1_same
          (crashcheck-Keeps g1 p cx cy i
            (ap (λ d. d 4) (lose_if-donemoving g p (edge (findship g.lake p))) ∙ clear)
            (subst Fleet (sym g1_same) f))

-- Whatever the direction, `moveto` leaves a fleet a fleet and writes only inside the lake. The flag
-- behind the end of `donemoving`, which `crashcheck` reads where no ship is hit, is clear.
pub moveto-Keeps :
    (g : Game) (direction p : ℕ)
    → IsPlayer p
    → g.donemoving 4 ≡ false
    → Fleet g.lake
    → Keeps g.lake (moveto g direction p).lake
unfolding moveto
moveto-Keeps g direction p i clear f =
    let at = findship-Located p i f in
    let step = λ (ty tx : ℕ) (cy cx : ℤ) (edge inside : ℕ → Bool).
      sail-Keeps g p ty tx cy cx edge inside i clear f in
    if_elim P (not (g.alive (p - 1))) _ _ (λ _. Keeps-refl f)
      λ _.
        if_elim P (direction == 1) _ _
          (λ _. step _ _ _ _ _ _ (λ e. (omega (arith, at.row), at.column, at.even)))
          λ _.
            if_elim P (direction == 2) _ _
              (λ _.
                step _ _ _ _ _ _ (λ e. (at.row, ground (arith, at.even), omega (arith, at.even))))
              λ _.
                if_elim P (direction == 3) _ _
                  (λ _. step _ _ _ _ _ _ (λ e. (ground arith, at.column, at.even)))
                  λ _.
                    if_elim P (direction == 4) _ _
                      (λ _.
                        step _ _ _ _ _ _
                          (λ e. (at.row, omega (arith, at.column), ground (arith, at.even))))
                      λ _. Keeps-refl f
  where
    P : Game → Type 0
    P h = Keeps g.lake h.lake
