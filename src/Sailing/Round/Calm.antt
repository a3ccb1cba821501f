-- ===== src/Sailing/Round/Calm.antt =====
-- What moving ships in Structured_Programming/main.c leaves alone: `donemoving`, and the saved places
-- where there are none.
use university_collection.Prelude.{
  ℕ, ◌-◌, ◌/◌, ◌%◌, ◌<◌, ◌≡◌, refl, ◌∙◌, Bool, false, not, ◌&&◌, ◌==◌,
}
use university_collection.Prelude.{if_elim, arith}
use university_collection.Prelude.Int.{ℤ, is_spent}
use university_collection.Sailing.Lake.{findship}
use university_collection.Sailing.State.{Game, update}
use university_collection.Sailing.Ships.{
  lose_life, wreck, ram, lose_if, collide, drown, crashcheck, settle,
}
use university_collection.Sailing.Ships.{sail, moveto, is_aground, is_rammed, place_target}
use university_collection.Sailing.Screen.{setpreview, printchange}
use university_collection.Sailing.Round.{
  for4, save_place, mark_place, reset_place, resetsavedpos, show_wind,
}
use university_collection.Sailing.Round.Saved.{for4-induction}

module _ (d : ℕ → Bool) where
  pub record Calm (g : Game) : Type 0 where
    pub flags : g.donemoving ≡ d
    pub places : (i : ℕ) → i < 4 → g.savedpos i ≡ (0, 0)

  lose_life-Calm : (g : Game) (p : ℕ) → Calm g → Calm (lose_life g p)
  unfolding lose_life
  lose_life-Calm g p c = record { flags = c.flags; places = c.places }

  wreck-Calm : (g : Game) (t : ℕ) → Calm g → Calm (wreck g t)
  unfolding wreck
  wreck-Calm g t c = record {
    flags = c.flags;
    places = λ i h. if_elim (λ s. s ≡ (0, 0)) (i == (t - 1)) _ _ (λ _. refl) (λ _. c.places i h);
  }

  dead-Calm : (g : Game) (t : ℕ) → Calm g → Calm (record g { alive = update g.alive (t - 1) false })
  dead-Calm g t c = record { flags = c.flags; places = c.places }

  ram-Calm : (g : Game) (p t : ℕ) → Calm g → Calm (ram g p t)
  unfolding ram
  ram-Calm g p t c =
      let h = lose_life-Calm _ t (lose_life-Calm g p c) in
      if_elim Calm (is_spent ((lose_life (lose_life g p) t).lives (t - 1))) _ _
        (λ _. wreck-Calm _ t (dead-Calm _ t h)) (λ _. h)

  crashcheck-Calm : (g : Game) (p : ℕ) (x y : ℤ) → Calm g → Calm (crashcheck g p x y).0
  unfolding crashcheck lose_if collide drown
  crashcheck-Calm g p x y c =
      let one = if_elim Calm (is_aground g x y) _ _ (λ _. lose_life-Calm g p c) (λ _. c) in
      let two : Calm
          (collide (lose_if g p (is_aground g x y)) p (place_target g x y) (is_rammed g p x y)) =
        if_elim Calm (is_rammed g p x y) _ _ (λ _. ram-Calm _ p _ one) (λ _. one) in
      if_elim Calm
        (is_spent (
          (collide (lose_if g p (is_aground g x y)) p (place_target g x y)
              (is_rammed g p x y)).lives
            (p - 1)))
        _ _ (λ _. dead-Calm _ p two) (λ _. two)

  sail-Calm :
      (g : Game) (p y x ty tx : ℕ) (cy cx : ℤ) (edge inside : ℕ → Bool)
      → Calm g
      → Calm (sail g p y x ty tx cy cx edge inside)
  unfolding sail settle lose_if
  sail-Calm g p y x ty tx cy cx edge inside c =
      let g1 = lose_if g p (edge (findship g.lake p)) in
      let one : Calm g1 =
        if_elim Calm (edge (findship g.lake p)) _ _ (λ _. lose_life-Calm g p c) (λ _. c) in
      let r = crashcheck g1 p cx cy in
      let two = crashcheck-Calm g1 p cx cy one in
      if_elim Calm (r.1 && inside (findship r.0.lake p)) _ _
        (λ _. record { flags = two.flags; places = two.places })
        (λ _. if_elim Calm (not (r.0.alive (p - 1))) _ _ (λ _. wreck-Calm r.0 p two) (λ _. two))

  pub moveto-Calm : (g : Game) (direction p : ℕ) → Calm g → Calm (moveto g direction p)
  unfolding moveto
  moveto-Calm g direction p c =
      let step = λ (ty tx : ℕ) (cy cx : ℤ) (edge inside : ℕ → Bool).
        sail-Calm g p (findship g.lake p / 100) (findship g.lake p % 100) ty tx cy cx edge inside
          c in
      if_elim Calm (not (g.alive (p - 1))) _ _ (λ _. c)
        λ _.
          if_elim Calm (direction == 1) _ _ (λ _. step _ _ _ _ _ _)
            λ _.
              if_elim Calm (direction == 2) _ _ (λ _. step _ _ _ _ _ _)
                λ _.
                  if_elim Calm (direction == 3) _ _ (λ _. step _ _ _ _ _ _)
                    λ _. if_elim Calm (direction == 4) _ _ (λ _. step _ _ _ _ _ _) (λ _. c)

-- Showing the wind does not touch `donemoving`.
same_flags :
    (body : ℕ → Game → Game) (g : Game)
    → ((i : ℕ) (a : Game) → (body i a).donemoving ≡ a.donemoving)
    → (for4 body g).donemoving ≡ g.donemoving
same_flags body g same =
    for4-induction (λ i a. a.donemoving ≡ g.donemoving) body g refl (λ i a h e. same i a ∙ e)

save_place-flags :
    (affected : ℕ → Bool) (i : ℕ) (a : Game) → (save_place affected i a).donemoving ≡ a.donemoving
unfolding save_place
save_place-flags affected i a = ground arith

mark_place-flags : (i : ℕ) (a : Game) → (mark_place i a).donemoving ≡ a.donemoving
unfolding mark_place
mark_place-flags i a = ground arith

reset_place-flags : (i : ℕ) (a : Game) → (reset_place i a).donemoving ≡ a.donemoving
unfolding reset_place
reset_place-flags i a = ground arith

pub show_wind-flags :
    (affected : ℕ → Bool) (g : Game) → (show_wind affected g).donemoving ≡ g.donemoving
unfolding show_wind resetsavedpos setpreview printchange
show_wind-flags affected g =
    let saved = setpreview (printchange (for4 (save_place affected) g)) in
    let marked = setpreview (printchange (for4 mark_place saved)) in
    same_flags reset_place marked reset_place-flags
    ∙ same_flags mark_place saved mark_place-flags
    ∙ same_flags (save_place affected) g (save_place-flags affected)
