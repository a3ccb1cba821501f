-- ===== src/Sailing/Course/Keys.antt =====
-- What a key does to the course that is planned in `declaremove` of Structured_Programming/main.c.
use native.Mathlib.Numerals.{add-one}
use university_collection.Prelude.{
  ℕ, suc, ◌+◌, ◌-◌, ◌*◌, ◌/◌, ◌%◌, ◌≤◌, ◌<◌, ◌≡◌, refl, sym, ap, ◌∙◌,
}
use university_collection.Prelude.{◌≢◌, ◌⊎◌, inl, inr, true, ◌&&◌, ◌==◌}
use university_collection.Prelude.{if◌then◌else◌, if_elim, Bool-cases, ==→≢, subst, arith}
use university_collection.Sailing.Lake.{Lake, put_pair}
use university_collection.Sailing.Lake.{path_code, ship_code}
use university_collection.Sailing.Lake.Fleet.{IsPlayer, Covers, Fleet, ship_code_lem}
use university_collection.Sailing.State.{Game, update_row}
use university_collection.Sailing.Ships.Clear.{Voyage, IsWater}
use university_collection.Sailing.Course.{Draft, setmovements, unsetmovements, record_move, is_undo}
use university_collection.Sailing.Course.{is_passable}
use university_collection.Sailing.Course.Trail.{Inside, IsNavigable, Trail, Trail-frame}
use university_collection.Sailing.Course.Trail.{Trail-back}

-- Writing one move of a player, read back.
row_update :
    (a : ℕ → ℕ → ℕ) (t p m v q k : ℕ)
    → t ≡ p
    → update_row a (t - 1) m v q k ≡ (if q == (p - 1) && k == m then v else a q k)
row_update a t p m v q k e = rw e (ground arith)

setmovements-frame :
    (g : Game) (cy cx : ℕ)
    → ((setmovements g cy cx).player_turn ≡ g.player_turn)
      × ((setmovements g cy cx).playermovements ≡ g.playermovements)
unfolding setmovements
setmovements-frame g cy cx =
    if_elim
      (λ (h : Game). (h.player_turn ≡ g.player_turn) × (h.playermovements ≡ g.playermovements))
      (g.lake cy cx % 1000 == 219) _ _ (λ _. (refl, refl)) (λ _. (refl, refl))

moved-IsWater :
    (l : Lake) {y x r c : ℕ} → IsWater (l y x) → (r == y && c == x) ≡ true → IsWater (l r c)
moved-IsWater l {y} {x} {r} {c} w hit =
    let row : r ≡ y = ground arith in let column : c ≡ x = ground arith in rw (row, column) w

pub ship_code-mod : (q : ℕ) → IsPlayer q → ship_code q % 1000 ≡ 219
ship_code-mod q j = omega (arith, ship_code_lem q j)

-- A planned course for the ship of `p` at `(sy, sx)`, on the lake `b` as it was before planning.
module _ (b : Lake) (p maxmoves sy sx : ℕ) (before : ℕ → ℕ → ℕ) where
  pub record IsDraft (d : Draft) : Type 0 where
    pub turn : d.game.player_turn ≡ p
    pub few : d.moves ≤ maxmoves
    pub trail : Trail b (d.game.playermovements (p - 1)) sy sx d.moves d.cy d.cx
    pub unused : (k : ℕ) → d.moves ≤ k → k < 8 → d.game.playermovements (p - 1) k ≡ 0
    pub others : (q k : ℕ) → q ≢ p - 1 → d.game.playermovements q k ≡ before q k
    pub cells :
        (r c : ℕ) → (d.game.lake r c ≡ b r c) ⊎ (d.game.lake r c ≡ path_code p) × IsWater (b r c)

  module _ (i : IsPlayer p) (start : Inside sy sx) (room : maxmoves ≤ 8) where
    pub undone-IsDraft :
        (d : Draft) (opposite ny nx : ℕ)
        → IsDraft d
        → Voyage opposite ny nx d.cy d.cx
        → is_undo d opposite ≡ true
        → IsDraft (record d {
          game = unsetmovements (record_move d.game (d.moves - 1) 0) b d.cy d.cx;
          moves = d.moves - 1;
          cy = ny;
          cx = nx;
        })
    unfolding unsetmovements
    undone-IsDraft d opposite ny nx v back undo =
        let some_move : d.moves ≡ suc (d.moves - 1) = ground arith in
        let last : d.game.playermovements (p - 1) (d.moves - 1) ≡ opposite =
          ground (arith, ap (λ q. d.game.playermovements (q - 1) (d.moves - 1)) v.turn) in
        let moved = λ (q k : ℕ).
          row_update d.game.playermovements d.game.player_turn p (d.moves - 1) 0 q k v.turn in
        record {
          turn = v.turn;
          few = omega (arith, v.few);
          trail =
              Trail-frame b (d.game.playermovements (p - 1)) _ sy sx (d.moves - 1) ny nx
                (λ k h. moved (p - 1) k ∙ ground arith)
                (Trail-back b (d.game.playermovements (p - 1)) sy sx d.moves (d.moves - 1) d.cy d.cx
                  opposite ny nx some_move last back v.trail);
          unused = λ k h e. moved (p - 1) k ∙ ground (arith, v.unused k);
          others = λ q k ne. moved q k ∙ ground (arith, v.others q k);
          cells = λ r c. ground (arith, v.cells r c);
        }

    -- The cells that the cursor may go on to are no land and no wreck in `b` either.
    passable-IsNavigable :
        (d : Draft) (ny nx : ℕ)
        → IsDraft d
        → is_passable d.game.lake ny nx ≡ true
        → IsNavigable b ny nx
    passable-IsNavigable d ny nx v free =
        let l = v.cells ny nx in
        let r = v.cells ny (nx + 1) in
        record {
          left_land = elim l [ inl e ↦ ground arith | inr w ↦ w.1.dry ];
          left_wreck = elim l [ inl e ↦ ground arith | inr w ↦ w.1.wrecked ];
          right_land = elim r [ inl e ↦ ground arith | inr w ↦ w.1.dry ];
          right_wreck = elim r [ inl e ↦ ground arith | inr w ↦ w.1.wrecked ];
        }

    -- If moreover the left one is no ship's, both were water.
    passable-IsWater :
        (d : Draft) (ny nx : ℕ)
        → Fleet b
        → IsDraft d
        → Inside ny nx
        → is_passable d.game.lake ny nx ≡ true
        → d.game.lake ny nx % 1000 ≢ 219
        → IsWater (b ny nx) × IsWater (b ny (nx + 1))
    passable-IsWater d ny nx f v at free other = (left_water, right_water)
      where
        n : IsNavigable b ny nx
        n = passable-IsNavigable d ny nx v free

        left_water : IsWater (b ny nx)
        left_water = elim (v.cells ny nx) [
          | inr w ↦ w.1
          | inl e ↦ record {
            dry = n.left_land;
            wrecked = n.left_wreck;
            plain = λ q j h. other (rw (e, h) (ship_code-mod q j));
          }
        ]

        right_water : IsWater (b ny (nx + 1))
        right_water = elim (v.cells ny (nx + 1)) [
          | inr w ↦ w.1
          | inl e ↦ record {
            dry = n.right_land;
            wrecked = n.right_wreck;
            plain = λ q j h.
                let back : 2 * ((nx + 1) / 2) ≡ nx = omega (arith, at.even) in
                let covered : Covers b q ny (nx + 1) = record {
                  row = at.row;
                  column = at.column;
                  code = h;
                } in
                left_water.plain q j (rw back at (f.whole q ny (nx + 1) j covered).0);
          }
        ]

    -- What `setmovements` writes: the cells that it draws on were water.
    drawn_cells :
        (d : Draft) (ny nx : ℕ)
        → Fleet b
        → IsDraft d
        → Inside ny nx
        → is_passable d.game.lake ny nx ≡ true
        → (r c : ℕ)
        → ((setmovements d.game ny nx).lake r c ≡ b r c)
          ⊎ ((setmovements d.game ny nx).lake r c ≡ path_code p) × IsWater (b r c)
    unfolding setmovements
    drawn_cells d ny nx f v at free r c = elim (Bool-cases (d.game.lake ny nx % 1000 == 219)) [
      | inl ship ↦ rw ship (v.cells r c)
      | inr other ↦
          let w = passable-IsWater d ny nx f v at free (==→≢ _ 219 other) in
          rw (other, v.turn) (drawn_pair ny nx r c w (v.cells r c))
    ]
      where
        drawn_pair :
            (y x r c : ℕ)
            → IsWater (b y x) × IsWater (b y (x + 1))
            → (d.game.lake r c ≡ b r c) ⊎ (d.game.lake r c ≡ path_code p) × IsWater (b r c)
            → (put_pair d.game.lake y x (path_code p) r c ≡ b r c)
              ⊎ (put_pair d.game.lake y x (path_code p) r c ≡ path_code p) × IsWater (b r c)
        drawn_pair y x r c w old = elim (Bool-cases (r == y && c == x + 1)) [
          | inl hit ↦ rw hit (inr (refl, moved-IsWater b w.1 hit))
          | inr miss ↦ elim (Bool-cases (r == y && c == x)) [
            | inl hit ↦ rw (miss, hit) (inr (refl, moved-IsWater b w.0 hit))
            | inr also ↦ rw (miss, also) old
          ]
        ]

    pub done-IsDraft :
        (d : Draft) (own ny nx : ℕ)
        → Fleet b
        → IsDraft d
        → Voyage own d.cy d.cx ny nx
        → Inside ny nx
        → d.moves < maxmoves
        → is_passable d.game.lake ny nx ≡ true
        → IsDraft (record d {
          game = record_move (setmovements d.game ny nx) d.moves own;
          moves = d.moves + 1;
          cy = ny;
          cx = nx;
        })
    done-IsDraft d own ny nx f v go at few free = record {
      turn = same.0 ∙ v.turn;
      few = omega arith;
      trail = rw (add-one d.moves) (
        d.cy,
        d.cx,
        Trail-frame b (d.game.playermovements (p - 1)) (codes (p - 1)) sy sx d.moves d.cy d.cx
            (λ k h. moved (p - 1) k ∙ ground arith) v.trail,
        subst (λ e. Voyage e d.cy d.cx ny nx) (sym last) go,
        passable-IsNavigable d ny nx v free,
        at,
      );
      unused = λ k h e. moved (p - 1) k ∙ ground (arith, v.unused k);
      others = λ q k ne. moved q k ∙ ground (arith, v.others q k);
      cells = drawn_cells d ny nx f v at free;
    }
      where
        g : Game
        g = setmovements d.game ny nx

        same : (g.player_turn ≡ d.game.player_turn) × (g.playermovements ≡ d.game.playermovements)
        same = setmovements-frame d.game ny nx

        codes : ℕ → ℕ → ℕ
        codes = update_row g.playermovements (g.player_turn - 1) d.moves own

        moved :
            (q k : ℕ)
            → codes q k ≡ (if q == (p - 1) && k == d.moves then own else d.game.playermovements q k)
        moved q k =
            row_update g.playermovements g.player_turn p d.moves own q k (same.0 ∙ v.turn)
            ∙ ap (λ (a : ℕ → ℕ → ℕ). if q == (p - 1) && k == d.moves then own else a q k) same.1

        last : codes (p - 1) d.moves ≡ own
        last = moved (p - 1) d.moves ∙ ground arith
