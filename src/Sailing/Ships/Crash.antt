-- ===== src/Sailing/Ships/Crash.antt =====
-- `moveto` of Structured_Programming/main.c where land, a wreck or another ship is in the way.
use university_collection.Prelude.{ℕ, ◌+◌, ◌-◌, ◌≡◌, refl, ap, ◌∙◌, ◌⊎◌}
use university_collection.Prelude.{Bool, true, false, ◌==◌}
use university_collection.Prelude.{arith}
use university_collection.Prelude.Int.{ℤ, pos, incr, is_spent, decr-pos, is_spent-pos}
use university_collection.Sailing.Lake.{put_pair, findship, ship_code}
use university_collection.Sailing.Lake.{wreckage, land}
use university_collection.Sailing.Lake.Find.{Ship, row-findship, column-findship}
use university_collection.Sailing.Lake.Fleet.{IsPlayer, IsPlain, ship_code_lem}
use university_collection.Sailing.State.{Game, update, cell}
use university_collection.Sailing.Ships.{lose_life, wreck, target_player}
use university_collection.Sailing.Ships.{is_aground, is_rammed, lose_if, collide, drown}
use university_collection.Sailing.Ships.{crashcheck, settle, sail, moveto}
use university_collection.Sailing.Ships.Keep.{wreck_place-player}
use university_collection.Sailing.Ships.Clear.{Voyage, asked}
use university_collection.Sailing.Ships.Clear.{moveto-Sails}

-- The constant that a ship is drawn with leads `crashcheck` back to its player.
pub target_player-ship_code : (p : ℕ) → IsPlayer p → target_player (ship_code p) ≡ p
unfolding target_player
target_player-ship_code p i = ground (arith, ship_code_lem p i)

-- The lives that are left decide: with two or more the ship stays where it is and has one less;
-- with the last one it is wrecked.
abbrev pub Aground : Game → (p y x : ℕ) → Game → Type 0
Aground g p y x h =
    ((n : ℕ)
      → g.lives (p - 1) ≡ pos (n + 1 + 1)
      → h ≡ record g { lives = update g.lives (p - 1) (pos (n + 1)) })
    × (g.lives (p - 1) ≡ pos 1
        → (h.lake ≡ put_pair g.lake y x wreckage)
          × (h.alive (p - 1) ≡ false)
          × (h.lives (p - 1) ≡ pos 0)
          × (h.wreckship (p - 1) ≡ (y, x + 1))
          × (h.wreckcounter (p - 1) ≡ 3))

settle-alive : (g : Game) (p : ℕ) → g.alive (p - 1) ≡ true → settle g p ≡ g
unfolding settle
settle-alive g p e = rw e

settle-dead : (g : Game) (p : ℕ) → g.alive (p - 1) ≡ false → settle g p ≡ wreck g p
unfolding settle
settle-dead g p e = rw e

sail-blocked :
    (g : Game) (p y x ty tx : ℕ) (cy cx : ℤ) (edge inside : ℕ → Bool)
    → edge (findship g.lake p) ≡ false
    → (crashcheck g p cx cy).1 ≡ false
    → sail g p y x ty tx cy cx edge inside ≡ settle (crashcheck g p cx cy).0 p
unfolding sail lose_if
sail-blocked g p y x ty tx cy cx edge inside e b = rw (e, b)

moveto-blocked :
    (g : Game) {d : ℕ} (p : ℕ) {y x ty tx : ℕ} (v : Voyage d y x ty tx)
    → Ship g.lake p y x
    → g.alive (p - 1) ≡ true
    → (crashcheck g p (pos (asked v)) (pos ty)).1 ≡ false
    → moveto g d p ≡ settle (crashcheck g p (pos (asked v)) (pos ty)).0 p
moveto-blocked g p {y} {x} {ty} {tx} v s live b =
    let m = moveto-Sails g p v s live in
    m.same ∙ sail-blocked g p y x ty tx (pos ty) (pos (asked v)) m.edge m.inside m.off b

crashcheck-aground :
    (g : Game) (p : ℕ) (x y : ℤ)
    → is_aground g x y ≡ true
    → is_rammed g p x y ≡ false
    → crashcheck g p x y ≡ (drown (lose_life g p) p, false)
unfolding crashcheck lose_if collide
crashcheck-aground g p x y a r = rw (a, r)

drown-spare :
    (g : Game) (p n : ℕ)
    → g.lives (p - 1) ≡ pos (n + 1 + 1)
    → drown (lose_life g p) p ≡ record g { lives = update g.lives (p - 1) (pos (n + 1)) }
unfolding drown lose_life
drown-spare g p n two =
    let self : ((p - 1) == (p - 1)) ≡ true = ground arith in
    rw (self, two, decr-pos (n + 1), is_spent-pos n)

drown-last :
    (g : Game) (p : ℕ)
    → g.lives (p - 1) ≡ pos 1
    → drown (lose_life g p) p
      ≡ record g { lives = update g.lives (p - 1) (pos 0); alive = update g.alive (p - 1) false }
unfolding drown lose_life is_spent
drown-last g p one =
    let self : ((p - 1) == (p - 1)) ≡ true = ground arith in rw (self, one, decr-pos 0)

-- `wreck` at the place of the player's ship.
wreck-Ship :
    (g : Game) (p : ℕ) {y x : ℕ}
    → IsPlayer p
    → Ship g.lake p y x
    → wreck g p ≡ record g {
      lake = put_pair g.lake y x wreckage;
      wreckship = update g.wreckship (p - 1) (y, x + 1);
      wreckcounter = update g.wreckcounter (p - 1) 3;
      savedpos = update g.savedpos (p - 1) (0, 0);
    }
unfolding wreck
wreck-Ship g p i s = rw (wreck_place-player g p i, row-findship s, column-findship s)

-- Land or a wreck.
abbrev pub IsHard : ℕ → Type 0
IsHard code = (code ≡ land) ⊎ (code ≡ wreckage)

aground-hard :
    (g : Game) (y x : ℕ)
    → IsHard (g.lake y x) ⊎ IsHard (g.lake y (x + 1))
    → is_aground g (pos x) (pos y) ≡ true
unfolding cell incr
aground-hard g y x h = ground (arith, h)

-- A cell without a ship has no player.
target_player-plain : (code : ℕ) → IsPlain code → target_player code ≡ 5
unfolding target_player ship_code
target_player-plain code w =
    let a = w 1 (omega arith) in
    let b = w 2 (omega arith) in
    let c = w 3 (omega arith) in let d = w 4 (omega arith) in ground arith

rammed-plain :
    (g : Game) (p y x : ℕ)
    → IsPlayer p
    → g.donemoving 4 ≡ false
    → IsPlain (g.lake y x)
    → is_rammed g p (pos x) (pos y) ≡ false
unfolding cell
rammed-plain g p y x i clear w =
    rw (target_player-plain (g.lake y x) w, clear) (ground (arith, i.last))

-- A living ship is to move by one place inside the lake. `crashcheck` looks at two cells of the row of its
-- new place: the two cells of that place; but to the left at the cell beside the ship and the ship's own
-- left cell. Land or a wreck is in one of the two, no ship in the first, and `donemoving[4]`, past the end
-- of the array, is clear. Then the ship does not move. If it has two or more lives, the only change is that
-- it loses one. With its last life it is wrecked: its two cells become wreckage, it is no longer alive, and
-- its place is kept with a count of three rounds.
pub moveto-Aground :
    (g : Game) (direction p y x ty tx : ℕ) (v : Voyage direction y x ty tx)
    → IsPlayer p
    → Ship g.lake p y x
    → g.alive (p - 1) ≡ true
    → IsHard (g.lake ty (asked v)) ⊎ IsHard (g.lake ty (asked v + 1))
    → IsPlain (g.lake ty (asked v))
    → g.donemoving 4 ≡ false
    → Aground g p y x (moveto g direction p)
moveto-Aground g d p y x ty tx v i s live hard plain clear =
    let a = aground-hard g ty (asked v) hard in
    let r = rammed-plain g p ty (asked v) i clear plain in
    let c = crashcheck-aground g p (pos (asked v)) (pos ty) a r in
    let m = moveto-blocked g p v s live (ap (λ q. q.1) c) ∙ ap (λ q. settle q.0 p) c in
    (
      λ n two. m ∙ ap (λ h. settle h p) (drown-spare g p n two) ∙ settle-alive _ p live,
      λ one. rw (m, drown-last g p one) (sunk one),
    )
  where
    drowned : Game
    drowned = record g {
      lives = update g.lives (p - 1) (pos 0);
      alive = update g.alive (p - 1) false;
    }

    sunk :
        g.lives (p - 1) ≡ pos 1
        → ((settle drowned p).lake ≡ put_pair g.lake y x wreckage)
          × ((settle drowned p).alive (p - 1) ≡ false)
          × ((settle drowned p).lives (p - 1) ≡ pos 0)
          × ((settle drowned p).wreckship (p - 1) ≡ (y, x + 1))
          × ((settle drowned p).wreckcounter (p - 1) ≡ 3)
    sunk one =
        let self : ((p - 1) == (p - 1)) ≡ true = ground arith in
        rw (settle-dead drowned p (rw self), wreck-Ship drowned p i s, self)
          (refl, refl, refl, refl, refl)
