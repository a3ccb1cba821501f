-- ===== src/Sailing/Program/Ends.antt =====
-- The screens of Structured_Programming/main.c come to an end.
use university_collection.Prelude.{ℕ, zero, suc, ◌+◌, ◌≤◌, ◌<◌, inl, inr, arith}
use university_collection.Prelude.{Bool, true, false, ◌==◌, if_elim, Bool-cases}
use university_collection.Prelude.{Option, none, some, List, [], ◌∷◌}
use university_collection.Sailing.State.{Game, update}
use university_collection.Sailing.Wind.{Rng}
use university_collection.Sailing.Setup.{reset_state, launch}
use university_collection.Sailing.Menu.{enter, menu_manager, name_select}
use university_collection.Sailing.Match.{Match, waiting, over}
use university_collection.Sailing.Match.Keys.{length, Takes}
use university_collection.Sailing.Program.{
  Run, waits, exits, returns, out_of_fuel, and_then, picked, named, ship_select, played, getchar,
  shown, sailing, main_menu,
}
use university_collection.Sailing.Program.Keys.{
  menu_manager-Takes, name_select-Takes, Leaves, game_loop-Leaves,
}

-- The fuel is enough, and fewer than `m` keys are left at the return.
abbrev Ends : ℕ → Run → Type 0
Ends m waits = Unit
Ends m exits = Unit
Ends m (returns g won keys) = length keys < m
Ends m out_of_fuel = ⊥

-- The player has still to press a key, or the program has ended.
abbrev pub Closed : Run → Type 0
Closed waits = Unit
Closed exits = Unit
Closed (returns g won keys) = ⊥
Closed out_of_fuel = ⊥

Closed-Ends : (m : ℕ) (r : Run) → Closed r → Ends m r
Closed-Ends m waits c = tt
Closed-Ends m exits c = tt
Closed-Ends m (returns g won keys) c = absurd c
Closed-Ends m out_of_fuel c = c

Ends-le : (r : Run) (m n : ℕ) → m ≤ n → Ends m r → Ends n r
Ends-le waits m n h e = tt
Ends-le exits m n h e = tt
Ends-le (returns g won keys) m n h e = omega (arith, h, e)
Ends-le out_of_fuel m n h e = e

-- Any property of the result that waiting and leaving have.
module _ (P : Run → Type 0) (at_wait : P waits) (at_exit : P exits) where
  and_then_elim :
      (r : Run) (m : ℕ) (next : Game → Bool → List ℕ → Run)
      → Ends m r
      → ((g : Game) (won : Bool) (keys : List ℕ) → length keys < m → P (next g won keys))
      → P (and_then r next)
  unfolding and_then
  and_then_elim waits m next e f = at_wait
  and_then_elim exits m next e f = at_exit
  and_then_elim (returns g won keys) m next e f = f g won keys e
  and_then_elim out_of_fuel m next e f = absurd e

  picked_elim :
      (r : Option (Option ℕ × List ℕ)) (m : ℕ) (back : List ℕ → Run) (next : ℕ → List ℕ → Run)
      → Takes m r
      → ((keys : List ℕ) → length keys < m → P (back keys))
      → ((choice : ℕ) (keys : List ℕ) → length keys < m → P (next choice keys))
      → P (picked r back next)
  unfolding picked
  picked_elim none m back next t b f = at_wait
  picked_elim (some (none, keys)) m back next t b f = b keys t
  picked_elim (some (some choice, keys)) m back next t b f = f choice keys t

  shown_elim :
      (keys : List ℕ) (menu : List ℕ → Run)
      → ((last : List ℕ) → length last < length keys → P (menu last))
      → P (shown (getchar keys) menu)
  unfolding shown getchar
  shown_elim [] menu f = at_wait
  shown_elim (key ∷ keys) menu f = elim (Bool-cases (key == enter)) [
    | inl e ↦ rw e (f keys (omega arith))
    | inr e ↦ rw e (shown_elim keys menu (λ last h. f last (omega (arith, h))))
  ]

-- A `sailing` with fuel for fewer than `f` keys.
module _ (f : ℕ) (again : Game → List ℕ → Run)
    (again-Ends : (g : Game) (keys : List ℕ)
      → length keys < f
      → Ends (suc (length keys)) (again g keys)) where
  named-Ends :
      (n : ℕ) (r : Option ((Game × Bool) × List ℕ))
      → n < f
      → Takes (suc n) r
      → Ends (suc n) (named r again)
  unfolding named
  named-Ends n none h t = tt
  named-Ends n (some ((g, true), keys)) h t = t
  named-Ends n (some ((g, false), keys)) h t =
      Ends-le (again g keys) (suc (length keys)) (suc n) (omega (arith, t))
        (again-Ends g keys (omega (arith, h, t)))

  ship_select-Ends :
      (n i : ℕ) (g : Game) (keys : List ℕ)
      → length keys < f
      → Ends (suc (length keys)) (ship_select again n i g keys)
  unfolding ship_select
  ship_select-Ends zero i g keys h = omega arith
  ship_select-Ends (suc n) i g keys h =
      picked_elim (Ends (suc (length keys))) tt tt (menu_manager 75 77 0 2 keys) (length keys) _ _
        (menu_manager-Takes 75 77 0 2 keys)
        (λ rest fewer.
          Ends-le _ (suc (length rest)) (suc (length keys)) (omega (arith, fewer)) (
            again-Ends (record g { ships = update g.ships i none }) rest (omega (arith, h, fewer))))
        (λ kind rest fewer.
          and_then_elim (Ends (suc (length keys))) tt tt
            (named (name_select (record g { ships = update g.ships i (some kind) }) rest) again)
            (suc (length rest)) _
            (named-Ends (length rest) _ (omega (arith, h, fewer)) (name_select-Takes _ rest))
            (λ s _ left less.
              Ends-le _ (suc (length left)) (suc (length keys)) (omega (arith, fewer, less)) (
                ship_select-Ends n (suc i) (record s { player_turn = s.player_turn + 1 }) left
                  (omega (arith, h, fewer, less)))))

played-Ends : (m : ℕ) (r : Match) → Leaves m r → Ends m (played r)
unfolding played
played-Ends m waiting l = tt
played-Ends m (over g won keys) l = l
played-Ends m Match.out_of_fuel l = l

mutual
  unfolding sailing

  sailing-Ends :
      (rng : Rng) (fuel : ℕ) (g : Game) (keys : List ℕ)
      → length keys < fuel
      → Ends (suc (length keys)) (sailing rng fuel g keys)
  sailing-Ends rng zero g keys enough = absurd (omega (arith, enough))
  sailing-Ends rng (suc fuel) g keys enough =
      picked_elim (Ends (suc (length keys))) tt tt (menu_manager 72 80 0 2 keys) (length keys) _ _
        (menu_manager-Takes 72 80 0 2 keys)
        (λ rest fewer.
          Closed-Ends (suc (length keys)) _
            (menu_ends rng fuel (reset_state g) rest (omega (arith, enough, fewer))))
        (λ difficulty rest fewer.
          picked_elim (Ends (suc (length keys))) tt tt (menu_manager 80 72 1 4 rest) (length rest) _
            _ (menu_manager-Takes 80 72 1 4 rest)
            (λ left less.
              Ends-le _ (suc (length left)) (suc (length keys)) (omega (arith, fewer, less))
                (sailing-Ends rng fuel (reset_state g) left (omega (arith, enough, fewer, less))))
            (λ players left less.
              and_then_elim (Ends (suc (length keys))) tt tt
                (ship_select (λ h ks. sailing rng fuel h ks) players 0 (reset_state g) left)
                (suc (length left)) _
                (ship_select-Ends fuel (λ h ks. sailing rng fuel h ks) (sailing-Ends rng fuel)
                  players 0 (reset_state g) left (omega (arith, enough, fewer, less)))
                (λ h _ last few.
                  Ends-le _ (suc (length last)) (suc (length keys))
                    (omega (arith, fewer, less, few))
                    (played-Ends (suc (length last)) _ (
                      game_loop-Leaves rng players difficulty fuel 0 (launch players h) last
                        (omega (arith, enough, fewer, less, few)))))))

  menu_ends :
      (rng : Rng) (fuel : ℕ) (g : Game) (keys : List ℕ)
      → length keys < fuel
      → Closed (main_menu rng fuel g keys)
  menu_ends rng zero g keys enough = absurd (omega (arith, enough))
  menu_ends rng (suc fuel) g keys enough =
      picked_elim Closed tt tt (menu_manager 72 80 0 1 keys) (length keys) _ _
        (menu_manager-Takes 72 80 0 1 keys)
        (λ rest fewer. menu_ends rng fuel g rest (omega (arith, enough, fewer)))
        (λ choice rest fewer.
          if_elim Closed (choice == 0) _ _
            (λ _.
              and_then_elim Closed tt tt (sailing rng fuel g rest) (suc (length rest)) _
                (sailing-Ends rng fuel g rest (omega (arith, enough, fewer)))
                (λ h _ left less. shown_elim Closed tt tt left _ (λ last few.
                  menu_ends rng fuel h last (omega (arith, enough, fewer, less, few)))))
            (λ _. tt))

-- With more fuel than there are keys, `main_menu` never runs out of it, and it does not return: the
-- program waits for a further key, or has ended by `exit(0)`.
pub main_menu-Closed :
    (rng : Rng) (fuel : ℕ) (g : Game) (keys : List ℕ)
    → length keys < fuel
    → Closed (main_menu rng fuel g keys)
main_menu-Closed rng fuel g keys enough = menu_ends rng fuel g keys enough
