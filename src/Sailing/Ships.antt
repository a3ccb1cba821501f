-- ===== src/Sailing/Ships.antt =====
-- Moving ships in Structured_Programming/main.c: `wreck`, `crashcheck` and `moveto`. Players count
-- from 1, so a player's element of an array is at index `p - 1`.
pub mod Keep
pub mod Clear
pub mod Crash
pub mod Faults
use university_collection.Prelude.{ℕ, ◌+◌, ◌-◌, ◌*◌, ◌/◌, ◌%◌, Bool, false, not, ◌&&◌, ◌||◌}
use university_collection.Prelude.{ltb, ◌==◌, if◌then◌else◌}
use university_collection.Prelude.Int.{ℤ, pos, decr, incr, is_spent}
use university_collection.Sailing.Lake.{
  player1, player2, player3, player4, sea, land, wreckage, put_pair, ship_code, findship,
}
use university_collection.Sailing.State.{Game, update, cell}

-- `x != 0` for a position's row or column.
abbrev pub is_set : ℕ → Bool
is_set n = not (n == 0)

-- `lives[p-1]--`
unfoldable pub lose_life : Game → ℕ → Game
unfolding decr
lose_life g p = record g { lives = update g.lives (p - 1) (decr (g.lives (p - 1))) }

-- The ship that `wreck` takes down. The condition on `target` is the source's: it holds for no
-- player, so the position is that of `findship`.
unfoldable pub wreck_place : Game → ℕ → ℕ
wreck_place g target =
    let saved = g.savedpos target in
    if target == 0 && (is_set saved.0 || is_set saved.0)
    then saved.0 * 100 + (saved.1 - 1)
    else findship g.lake target

unfoldable pub wreck : Game → ℕ → Game
wreck g target =
    let place = wreck_place g target in
    record g {
      lake = put_pair g.lake (place / 100) (place % 100) wreckage;
      wreckship = update g.wreckship (target - 1) (place / 100, place % 100 + 1);
      wreckcounter = update g.wreckcounter (target - 1) 3;
      savedpos = update g.savedpos (target - 1) (0, 0);
    }

-- The player whose ship a cell shows, or 5.
unfoldable pub target_player : ℕ → ℕ
target_player code =
    if code == player4
    then 4
    else if code == player3
    then 3
    else if code == player2
    then 2
    else if code == player1
    then 1
    else 5

abbrev pub is_terrain : ℕ → Bool
is_terrain code = code == land || code == wreckage

-- The second collision of `crashcheck`: both ships lose a life, and the target may sink.
unfoldable pub ram : Game → ℕ → ℕ → Game
ram g p t =
    let h = lose_life (lose_life g p) t in
    if is_spent (h.lives (t - 1))
    then wreck (record h { alive = update h.alive (t - 1) false }) t
    else h

-- The first test of `crashcheck`: land or a wreck in one of the two cells.
abbrev pub is_aground : Game → ℤ → ℤ → Bool
is_aground g x y = is_terrain (cell g y x) || is_terrain (cell g y (incr x))

abbrev pub place_target : Game → ℤ → ℤ → ℕ
place_target g x y = target_player (cell g y x)

-- The second test: a ship that has moved already in this phase, or has ended its moves.
abbrev pub is_rammed : Game → ℕ → ℤ → ℤ → Bool
is_rammed g p x y = ltb (place_target g x y) p || g.donemoving (place_target g x y - 1)

-- A life is lost if the test says so.
unfoldable pub lose_if : Game → ℕ → Bool → Game
lose_if g p hit = if hit then lose_life g p else g

unfoldable pub collide : Game → ℕ → ℕ → Bool → Game
collide g p t rammed = if rammed then ram g p t else g

unfoldable pub drown : Game → ℕ → Game
drown g p =
    if is_spent (g.lives (p - 1)) then record g { alive = update g.alive (p - 1) false } else g

-- Beside the new state: whether the ship may move to `(y, x)`.
unfoldable pub crashcheck : Game → ℕ → ℤ → ℤ → Game × Bool
crashcheck g p x y =
    let aground = is_aground g x y in
    let rammed = is_rammed g p x y in
    (drown (collide (lose_if g p aground) p (place_target g x y) rammed) p, not (aground || rammed))

-- The other branch of `moveto`: a ship that does not move is wrecked if it is not alive.
unfoldable pub settle : Game → ℕ → Game
settle g p = if not (g.alive (p - 1)) then wreck g p else g

-- One case of `moveto`, for a ship at `(y, x)`: `edge` is the test for the border of the lake and
-- `inside` the one that lets the ship move; `(ty, tx)` is the left cell of the place it moves to
-- and `(cy, cx)` the place that `crashcheck` is asked about.
unfoldable pub sail : Game → (p y x ty tx : ℕ) (cy cx : ℤ) (edge inside : ℕ → Bool) → Game
sail g p y x ty tx cy cx edge inside =
    let g1 = lose_if g p (edge (findship g.lake p)) in
    let r = crashcheck g1 p cx cy in
    if r.1 && inside (findship r.0.lake p)
    then record r.0 { lake = put_pair (put_pair r.0.lake y x sea) ty tx (ship_code p) }
    else settle r.0 p

-- `moveto`: 1 is up, 2 right, 3 down, 4 left. On the way left `crashcheck` is asked about the
-- place one column to the left, though the ship moves by two.
unfoldable pub moveto : Game → ℕ → ℕ → Game
moveto g direction p =
    let y = findship g.lake p / 100 in
    let x = findship g.lake p % 100 in
    if not (g.alive (p - 1))
    then g
    else if direction == 1
    then sail g p y x (y - 1) x (decr (pos y)) (pos x) (λ f. f / 100 == 0) (λ f. ltb 0 (f / 100))
    else if direction == 2
    then sail g p y x y (x + 2) (pos y) (pos (x + 2)) (λ f. ltb 61 (f % 100))
        (λ f. ltb (f % 100) 62)
    else if direction == 3
    then sail g p y x (y + 1) x (pos (y + 1)) (pos x) (λ f. f / 100 == 24) (λ f. ltb (f / 100) 24)
    else if direction == 4
    then sail g p y x y (x - 2) (pos y) (decr (pos x)) (λ f. ltb (f % 100) 2) (λ f. ltb 1 (f % 100))
    else g
