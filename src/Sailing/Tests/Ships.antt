-- ===== src/Sailing/Tests/Ships.antt =====
-- The theorems about the lake and the moves of ships, at small lakes.
use university_collection.Prelude.{inl, ◌≡◌, refl, arith}
use university_collection.Prelude.Int.{is_spent-pos}
use university_collection.Sailing.Lake.{findship, sea}
use university_collection.Sailing.Lake.Fleet.{IsAbsent, sea-IsPlain, land-IsPlain}
use university_collection.Sailing.Lake.Find.{Ship}
use university_collection.Sailing.Ships.{moveto}
use university_collection.Sailing.Ships.Keep.{Keeps, moveto-Keeps}
use university_collection.Sailing.Ships.Clear.{Voyage, up, IsWater, carried, moveto-clear}
use university_collection.Sailing.Ships.Crash.{Aground, moveto-Aground}
use university_collection.Sailing.Ships.Faults.{moveto_overrun}
use university_collection.Sailing.Tests.Boards.{
  harbour, cliff, rivals, game_on, first-IsPlayer, second-IsPlayer,
}
use university_collection.Sailing.Tests.Boards.{cliff-Fleet, harbour-Ship, cliff-Ship}
use university_collection.Sailing.Tests.Boards.{rivals-Ship_one, rivals-Ship_two}

abbrev north : Voyage 1 11 0 10 0
north = up refl refl refl

sea-IsWater : IsWater sea
sea-IsWater = record { dry = omega arith; wrecked = omega arith; plain = sea-IsPlain }

moveto-Keeps_example : Keeps cliff (moveto (game_on cliff) 1 1).lake
moveto-Keeps_example = moveto-Keeps (game_on cliff) 1 1 first-IsPlayer refl cliff-Fleet

moveto-clear_example :
    (moveto (game_on harbour) 1 1 ≡ record (game_on harbour) { lake = carried harbour 1 11 0 10 0 })
    × Ship (moveto (game_on harbour) 1 1).lake 1 10 0
moveto-clear_example =
    moveto-clear (game_on harbour) 1 1 11 0 10 0 first-IsPlayer harbour-Ship north sea-IsWater
      sea-IsWater refl (is_spent-pos 0) refl

moveto-Aground_example : Aground (game_on cliff) 1 11 0 (moveto (game_on cliff) 1 1)
moveto-Aground_example =
    moveto-Aground (game_on cliff) 1 1 11 0 10 0 north first-IsPlayer cliff-Ship refl
      (inl (inl refl)) land-IsPlain refl

moveto_overrun_example :
    IsAbsent (moveto (game_on rivals) 1 1).lake 2
    × (findship (moveto (game_on rivals) 1 1).lake 2 ≡ 0)
    × ((moveto (game_on rivals) 1 1).alive ≡ (game_on rivals).alive)
moveto_overrun_example =
    moveto_overrun (game_on rivals) 1 1 2 11 0 10 0 north first-IsPlayer second-IsPlayer
      (omega arith) rivals-Ship_one rivals-Ship_two refl refl (is_spent-pos 0)
