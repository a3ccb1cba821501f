-- ===== src/Sailing/Turn.antt =====
-- A round of Structured_Programming/main.c: `play_turn` lets the players plan, moves the ships and
-- counts the wrecks down.
pub mod Wrecks
pub mod Countdown
use university_collection.Prelude.{ℕ, zero, suc, ◌+◌, ◌-◌, Bool, true, false, not, ◌&&◌, ◌||◌, ltb}
use university_collection.Prelude.{◌==◌, if◌then◌else◌, Option, none, some, List}
use university_collection.Sailing.Lake.{put, sea}
use university_collection.Sailing.State.{Game, update}
use university_collection.Sailing.Screen.{setpreview, printchange}
use university_collection.Sailing.Ships.{is_set}
use university_collection.Sailing.Wind.{Rng, windchange}
use university_collection.Sailing.Course.{Draft, declaremove}
use university_collection.Sailing.Round.{fill4, for4, moveplayers}

-- The countdown for one wreck in `play_turn`. Both halves of the test are about the row.
unfoldable pub tick_wreck : ℕ → Game → Game
tick_wreck i g =
    let h =
      if is_set (g.wreckcounter i)
      then record g { wreckcounter = update g.wreckcounter i (g.wreckcounter i - 1) }
      else g in
    let y = (h.wreckship i).0 in
    let x = (h.wreckship i).1 in
    let v = setpreview h in
    if h.wreckcounter i == 0 && (is_set y || is_set y)
    then printchange (record v {
      lake = put (put v.lake y x sea) y (x - 1) sea;
      wreckship = update v.wreckship i (0, 0);
    })
    else h

-- `declaremove` and what follows it.
abbrev pub after_plan {ℓ} :
    {A : Type ℓ} → (Game → List ℕ → Option A) → Option (Draft × List ℕ) → Option A
after_plan next none = none
after_plan next (some (d, keys)) = next d.game keys

-- The players who are alive plan their courses in turn; the keys that are left are passed on.
unfoldable pub plan_all : (n player : ℕ) → Game → List ℕ → Option (Game × List ℕ)
plan_all zero player g keys = some (record g { player_turn = player }, keys)
plan_all (suc n) player g keys =
    let h = record g { player_turn = player } in
    let skip = plan_all n (suc player) h keys in
    let plan = after_plan (plan_all n (suc player)) (declaremove h keys) in
    if h.alive (player - 1) then plan else skip

-- The rest of `play_turn`, when the courses are planned: the flag is the winner's.
unfoldable pub sail_turn : Rng → ℕ → Game → Game × Bool
sail_turn rng players g =
    let r = moveplayers rng players (record g { donemoving = fill4 g.donemoving false }) in
    if r.1 then (r.0, true) else (for4 tick_wreck r.0, false)

-- What follows the planning, with the keys that are left.
abbrev pub sailed : Rng → ℕ → Option (Game × List ℕ) → Option ((Game × Bool) × List ℕ)
sailed rng players none = none
sailed rng players (some (h, rest)) = some (sail_turn rng players h, rest)

-- `play_turn`; `none` means that a player has still to press a key.
unfoldable pub play_turn :
    Rng → (players difficulty : ℕ) → Game → List ℕ → Option ((Game × Bool) × List ℕ)
play_turn rng players difficulty g keys =
    sailed rng players
      (plan_all players 1 (windchange rng (record g { player_turn = 1 }) difficulty) keys)
