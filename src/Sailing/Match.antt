-- ===== src/Sailing/Match.antt =====
-- The loop of `sailing` of Structured_Programming/main.c that plays rounds until the game is decided.
pub mod Keys
pub mod Ends
use university_collection.Prelude.{ℕ, zero, suc, ◌+◌, Bool, true, false, ◌==◌, if◌then◌else◌}
use university_collection.Prelude.{Option, none, some, List}
use university_collection.Sailing.State.{Game}
use university_collection.Sailing.Wind.{Rng}
use university_collection.Sailing.Turn.{play_turn}

-- How the loop ends: a player has still to press a key; or it is left, with the flag for the result
-- 1 of `sailing` and the keys that are left; or the fuel is used up.
pub data Match : Type 0 where
  waiting : Match
  over : Game → Bool → List ℕ → Match
  out_of_fuel : Match

-- The loop that counts the dead among the players `i` to `i + n - 1`.
unfoldable pub count_dead : (n i : ℕ) → Game → ℕ
count_dead zero i g = 0
count_dead (suc n) i g = let rest = count_dead n (suc i) g in if g.alive i then rest else suc rest

-- The `while` of `sailing`, where `dead` is `deadnum`.
unfoldable pub game_loop : Rng → (players difficulty fuel dead : ℕ) → Game → List ℕ → Match
unfolding count_dead
game_loop rng players difficulty zero dead g keys = out_of_fuel
game_loop rng players difficulty (suc fuel) dead g keys =
    if dead == players then over g false keys else elim (play_turn rng players difficulty g keys) [
      | none ↦ waiting
      | some ((h, won), rest) ↦
          let next =
            game_loop rng players difficulty fuel (count_dead players 0 h)
              (record h { cur_round = h.cur_round + 1 }) rest in
          if won then over h true rest else next
    ]
