-- ===== src/Sailing/Tests/Boards.antt =====
-- Small lakes, a game on each of them, and a generator of numbers.
use university_collection.Prelude.{ℕ, false, true, some, arith}
use university_collection.Prelude.Int.{pos}
use university_collection.Sailing.Lake.{Lake, put_pair, sea, land, ship_code}
use university_collection.Sailing.Lake.Find.{Ship}
use university_collection.Sailing.Lake.Fleet.{IsPlayer, Fleet, IsAbsent, sea-IsPlain, land-IsPlain}
use university_collection.Sailing.Lake.Fleet.{Fleet-put_plain, Fleet-put_ship, ship_code_lem}
use university_collection.Sailing.State.{Game}
use university_collection.Sailing.Wind.{Rng}

abbrev pub open_sea : Lake
open_sea y x = sea

-- The ship of player 1 in the open sea.
abbrev pub harbour : Lake
harbour = put_pair open_sea 11 0 (ship_code 1)

-- Land to the north of it.
abbrev pub cliff : Lake
cliff = put_pair harbour 10 0 land

-- The ship of player 2 to the north of it.
abbrev pub rivals : Lake
rivals = put_pair harbour 10 0 (ship_code 2)

-- The ship of player 1 with land two columns to the left.

-- The ship of player 1 on the finish line.
abbrev pub home : Lake
home = put_pair open_sea 6 4 (ship_code 1)

abbrev pub game_on : Lake → Game
game_on l = record {
  lake = l;
  prevlake = open_sea;
  screen = l;
  stray = λ y x. 0;
  ships = λ p. some 0;
  names = λ p i. 0;
  player_turn = 1;
  cur_round = 1;
  wind_dir = 1;
  wind_spd = 10;
  playermovements = λ p i. 0;
  alive = λ p. true;
  donemoving = λ p. false;
  lives = λ p. pos 1;
  savedpos = λ p. (0, 0);
  wreckship = λ p. (5, 9);
  wreckcounter = λ p. 3;
  winners = λ p. false;
  drawn = 0;
}

abbrev pub dice : Rng
dice = record { rand_max = 32767; value = λ k. 32767; value_le = λ k. omega arith }

pub first-IsPlayer : IsPlayer 1
first-IsPlayer = omega arith

pub second-IsPlayer : IsPlayer 2
second-IsPlayer = omega arith

open_sea-IsAbsent : (p : ℕ) → IsPlayer p → IsAbsent open_sea p
open_sea-IsAbsent p i r c hr hc = sea-IsPlain p i

open_sea-Fleet : Fleet open_sea
open_sea-Fleet = record {
  whole = λ p r c i h. absurd (sea-IsPlain p i h.code);
  single = λ p r c s d i h k. absurd (sea-IsPlain p i h.code);
}

pub harbour-Fleet : Fleet harbour
harbour-Fleet =
    Fleet-put_ship 11 0 1 (omega arith) first-IsPlayer (open_sea-IsAbsent 1 first-IsPlayer)
      open_sea-Fleet

pub cliff-Fleet : Fleet cliff
cliff-Fleet = Fleet-put_plain 10 0 land (omega arith) land-IsPlain harbour-Fleet

pub harbour-Ship : Ship harbour 1 11 0
harbour-Ship = record {
  row = omega arith;
  column = omega arith;
  left = ground arith;
  right = ground arith;
  only = λ r c hr hc e. ground (arith, ship_code_lem 1 first-IsPlayer);
}

pub cliff-Ship : Ship cliff 1 11 0
cliff-Ship = record {
  row = omega arith;
  column = omega arith;
  left = ground arith;
  right = ground arith;
  only = λ r c hr hc e. ground (arith, ship_code_lem 1 first-IsPlayer);
}

pub home-Ship : Ship home 1 6 4
home-Ship = record {
  row = omega arith;
  column = omega arith;
  left = ground arith;
  right = ground arith;
  only = λ r c hr hc e. ground (arith, ship_code_lem 1 first-IsPlayer);
}

pub rivals-Ship_one : Ship rivals 1 11 0
rivals-Ship_one = record {
  row = omega arith;
  column = omega arith;
  left = ground arith;
  right = ground arith;
  only = λ r c hr hc e.
      ground (arith, ship_code_lem 1 first-IsPlayer, ship_code_lem 2 second-IsPlayer);
}

pub rivals-Ship_two : Ship rivals 2 10 0
rivals-Ship_two = record {
  row = omega arith;
  column = omega arith;
  left = ground arith;
  right = ground arith;
  only = λ r c hr hc e.
      ground (arith, ship_code_lem 1 first-IsPlayer, ship_code_lem 2 second-IsPlayer);
}
