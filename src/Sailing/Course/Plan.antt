-- ===== src/Sailing/Course/Plan.antt =====
-- The loop of `declaremove` in Structured_Programming/main.c: whatever is pressed, the course stays
-- one that the ship can sail.
use university_collection.Prelude.{ℕ, ◌+◌, ◌-◌, ◌/◌, ◌%◌, ◌≤◌, ◌<◌, ◌≡◌, refl, ap, ◌∙◌}
use university_collection.Prelude.{◌≢◌, inl, inr, ◌&&◌, ltb, ◌==◌}
use university_collection.Prelude.{if_elim, ==→≢, ≢→==, ◌++◌, arith}
use university_collection.Prelude.{some, List, [], ◌∷◌}
use university_collection.Sailing.Lake.{Lake, rows, columns}
use university_collection.Sailing.Lake.{path_code, findship}
use university_collection.Sailing.Lake.Find.{sweep_lem, findship-cong}
use university_collection.Sailing.Lake.Fleet.{IsPlayer, Fleet}
use university_collection.Sailing.Lake.Locate.{findship-Located}
use university_collection.Sailing.State.{Game}
use university_collection.Sailing.Screen.{setpreview, printchange}
use university_collection.Sailing.Ships.Clear.{Voyage, up, right, down, left}
use university_collection.Sailing.Course.{Draft, is_undo}
use university_collection.Sailing.Course.{is_passable, arrow, clear_course, choose, press, draft}
use university_collection.Sailing.Course.{declare_loop, max_moves, declaremove}
use university_collection.Sailing.Course.Trail.{Inside, Trail-Inside}
use university_collection.Sailing.Course.Keys.{IsDraft, undone-IsDraft, done-IsDraft, ship_code-mod}

path_code-mod : (p : ℕ) → path_code p % 1000 ≡ 178
unfolding path_code
path_code-mod p = omega arith

-- The course does not hide a ship: the player's is found where it was.
findship-IsDraft :
    (b : Lake) (p maxmoves sy sx : ℕ) (before : ℕ → ℕ → ℕ) (d : Draft)
    → IsPlayer p
    → IsDraft b p maxmoves sy sx before d
    → findship d.game.lake p ≡ findship b p
findship-IsDraft b p maxmoves sy sx before d i v = findship-cong d.game.lake b p λ r c.
    elim (v.cells r c) [
      | inl e ↦ rw e
      | inr w ↦ ground (arith, w.0, w.1.plain p i, path_code-mod p, ship_code-mod p i)
    ]

-- No key is Enter.
abbrev pub IsTyping : List ℕ → Type 0
IsTyping [] = Unit
IsTyping (key ∷ keys) = (key ≢ 13) × IsTyping keys

-- The place of the ship of `p`, where the course starts.
abbrev pub ship_row : Lake → ℕ → ℕ
ship_row b p = findship b p / 100

abbrev pub ship_column : Lake → ℕ → ℕ
ship_column b p = findship b p % 100

ship_place-Inside :
    (b : Lake) (p : ℕ) → IsPlayer p → Fleet b → Inside (ship_row b p) (ship_column b p)
ship_place-Inside b p i f =
    let at = findship-Located p i f in record { row = at.row; column = at.column; even = at.even }

module _ (b : Lake) (p maxmoves : ℕ) (before : ℕ → ℕ → ℕ) (i : IsPlayer p) (f : Fleet b)
    (room : maxmoves ≤ 8) where
  abbrev Plan : Draft → Type 0
  Plan d = IsDraft b p maxmoves (ship_row b p) (ship_column b p) before d

  start : Inside (ship_row b p) (ship_column b p)
  start = ship_place-Inside b p i f

  clear_course-IsDraft : (d : Draft) → Plan d → Plan (clear_course b d)
  unfolding clear_course
  clear_course-IsDraft d v = record {
    turn = v.turn;
    few = omega arith;
    trail =
        let home =
          ap (findship d.game.lake) v.turn
          ∙ findship-IsDraft b p maxmoves (ship_row b p) (ship_column b p) before d i v in
        (ap (λ n. n / 100) home, ap (λ n. n % 100) home);
    unused = λ k h e. ground (arith, v.turn);
    others = λ q k ne. ground (arith, v.turn, v.others q k);
    cells = λ r c. ground (arith, v.cells r c, sweep_lem (λ y x _. b y x) d.game.lake r c);
  }

  arrow-IsDraft :
      (d : Draft) (opposite own ny nx : ℕ)
      → Plan d
      → Voyage own d.cy d.cx ny nx
      → Voyage opposite ny nx d.cy d.cx
      → Inside ny nx
      → Plan (arrow b maxmoves d opposite own ny nx)
  unfolding arrow
  arrow-IsDraft d opposite own ny nx v go back at =
      if_elim Plan (is_undo d opposite) _ _
        (λ u. undone-IsDraft b p maxmoves _ _ before i start room d opposite ny nx v back u)
        λ _.
          if_elim Plan (ltb d.moves maxmoves && is_passable d.game.lake ny nx) _ _
            (λ e.
              done-IsDraft b p maxmoves _ _ before i start room d own ny nx f v go at (ground arith)
                (ground arith))
            λ _. v

  cursor : (d : Draft) → Plan d → Inside d.cy d.cx
  cursor d v = Trail-Inside b (d.game.playermovements (p - 1)) _ _ d.moves d.cy d.cx start v.trail

  choose-IsDraft : (d : Draft) (key : ℕ) → Plan d → Plan (choose b maxmoves d key)
  unfolding choose
  choose-IsDraft d key v =
      if_elim Plan (key == 72) _ _
        (λ _.
          if_elim Plan (d.cy == 0) _ _ (λ _. v)
            (λ ne.
              let more = ==→≢ d.cy 0 ne in
              arrow-IsDraft d 3 1 (d.cy - 1) d.cx v (up refl (omega arith) refl)
                (down refl (omega arith) (omega (arith, at.row)) refl)
                (record { row = omega (arith, at.row); column = at.column; even = at.even })))
        λ _.
          if_elim Plan (key == 80) _ _
            (λ _.
              if_elim Plan (d.cy == 24) _ _ (λ _. v)
                (λ ne.
                  let more = ==→≢ d.cy 24 ne in
                  let room_below : d.cy + 1 < rows = omega (arith, at.row) in
                  arrow-IsDraft d 1 3 (d.cy + 1) d.cx v (down refl refl room_below refl)
                    (up refl refl refl)
                    (record { row = room_below; column = at.column; even = at.even })))
            λ _.
              if_elim Plan (key == 75) _ _
                (λ _.
                  if_elim Plan (ltb 1 d.cx) _ _
                    (λ more.
                      arrow-IsDraft d 2 4 d.cy (d.cx - 2) v (left refl refl (ground arith))
                        (right refl refl (ground arith) at.column)
                        (record {
                          row = at.row;
                          column = omega (arith, at.column);
                          even = ground (arith, at.even);
                        }))
                    (λ _. v))
                λ _.
                  if_elim Plan (key == 77) _ _
                    (λ _.
                      if_elim Plan (ltb d.cx 61) _ _
                        (λ more.
                          let room_right : d.cx + 2 + 1 < columns = ground (arith, at.even) in
                          arrow-IsDraft d 4 2 d.cy (d.cx + 2) v (right refl refl refl room_right)
                            (left refl refl refl)
                            (record {
                              row = at.row;
                              column = room_right;
                              even = omega (arith, at.even);
                            }))
                        (λ _. v))
                    λ _. if_elim Plan (key == 113) _ _ (λ _. clear_course-IsDraft d v) λ _. v
    where
      at : Inside d.cy d.cx
      at = cursor d v

  press-IsDraft : (d : Draft) (key : ℕ) → Plan d → Plan (press b maxmoves d key)
  unfolding press setpreview printchange
  press-IsDraft d key v =
      let w =
        choose-IsDraft (record d { game = setpreview d.game }) key
          (record {
            turn = v.turn;
            few = v.few;
            trail = v.trail;
            unused = v.unused;
            others = v.others;
            cells = v.cells;
          }) in
      record {
        turn = w.turn;
        few = w.few;
        trail = w.trail;
        unused = w.unused;
        others = w.others;
        cells = w.cells;
      }

  declare_loop-Plan :
      (d : Draft) (input : ℕ) (typed rest : List ℕ)
      → IsTyping typed
      → Plan d
      → (e : Draft) × (declare_loop b maxmoves d input (typed ++ 13 ∷ rest) ≡ some (e, rest))
        × Plan e
  unfolding declare_loop
  declare_loop-Plan d input [] rest no_enter v =
      (press b maxmoves d input, refl, press-IsDraft d input v)
  declare_loop-Plan d input (key ∷ typed) rest (other, no_enter) v =
      let next =
        declare_loop-Plan (press b maxmoves d input) key typed rest no_enter
          (press-IsDraft d input v) in
      (next.0, rw (≢→== key 13 other) next.1, next.2)

max_moves-le : (g : Game) → (6 ≤ max_moves g) × (max_moves g ≤ 8)
unfolding max_moves
max_moves-le g = ground arith

-- From a lake with a fleet, and no move of the player left over, `declaremove` ends at the first
-- Enter, whatever was typed before it, and leaves the later keys. What it leaves is a course of at
-- most `max_moves` moves from the player's ship to the cursor, inside the lake, with no move that
-- ends on land or a wreck and no code behind the last move. The moves of the others are as before,
-- and so is the lake, but for cells of open water that show the course.
pub declaremove_lem :
    (g : Game) (typed rest : List ℕ)
    → IsPlayer g.player_turn
    → Fleet g.lake
    → ((k : ℕ) → k < 8 → g.playermovements (g.player_turn - 1) k ≡ 0)
    → IsTyping typed
    → (e : Draft) × (declaremove g (typed ++ 13 ∷ rest) ≡ some (e, rest))
      × IsDraft g.lake g.player_turn
          (max_moves g)
          (ship_row g.lake g.player_turn)
          (ship_column g.lake g.player_turn)
          g.playermovements
          e
unfolding declaremove draft
declaremove_lem g typed rest i f none_left no_enter =
    declare_loop-Plan g.lake g.player_turn (max_moves g) g.playermovements i f (max_moves-le g).1
      (draft g) 0 typed rest no_enter
      (record {
        turn = refl;
        few = omega arith;
        trail = (refl, refl);
        unused = λ k h e. none_left k e;
        others = λ q k ne. refl;
        cells = λ r c. inl refl;
      })
