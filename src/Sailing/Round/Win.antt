-- ===== src/Sailing/Round/Win.antt =====
-- Who has won in Structured_Programming/main.c: `wincheck`, as `moveplayers` asks it.
use university_collection.Prelude.{ℕ, ◌+◌, ◌-◌, ◌%◌, ◌≤◌, ◌<◌, ◌≡◌, refl, ap, ◌∙◌}
use university_collection.Prelude.{Bool, true, false, ◌&&◌, ◌||◌, ltb, ◌==◌}
use university_collection.Prelude.{if◌then◌else◌, arith}
use university_collection.Sailing.Lake.{Lake, in_grid, sea, finish, sweep}
use university_collection.Sailing.Lake.Find.{Ship, findship-missing, sweep_lem}
use university_collection.Sailing.Lake.Fleet.{IsPlayer, IsAbsent, ship_code_lem}
use university_collection.Sailing.State.{Game}
use university_collection.Sailing.Screen.{setpreview, printchange}
use university_collection.Sailing.Wind.{Rng}
use university_collection.Sailing.Setup.Shores.{setfinishline_lem}
use university_collection.Sailing.Round.{fill4, clear_previews, is_home, note_winner}
use university_collection.Sailing.Round.{wincheck, run_phases, moveplayers}

-- What the check of one player leaves, where `l` is the lake.
note_winner_lem :
    (i : ℕ) (g : Game) (l : Lake)
    → g.lake ≡ l
    → ((note_winner i g).lake ≡ l)
      × ((k : ℕ) → (note_winner i g).winners k ≡ (g.winners k || (k == i && is_home l (i + 1))))
unfolding note_winner
note_winner_lem i g l e = rw e (ground arith, λ k. ground arith)

pick_four :
    (k : ℕ) (w : Bool) (h : ℕ → Bool)
    → k < 4
    → ((((w || (k == 0 && h 1)) || (k == 1 && h 2)) || (k == 2 && h 3)) || (k == 3 && h 4))
      ≡ (w || h (k + 1))
pick_four k w h few = ground arith

wincheck_lem :
    (g : Game)
    → ((wincheck g).0.lake ≡ g.lake)
      × ((k : ℕ) → k < 4 → (wincheck g).0.winners k ≡ (g.winners k || is_home g.lake (k + 1)))
unfolding wincheck
wincheck_lem g =
    let w0 = note_winner_lem 0 g g.lake refl in
    let w1 = note_winner_lem 1 _ g.lake w0.0 in
    let w2 = note_winner_lem 2 _ g.lake w1.0 in
    let w3 = note_winner_lem 3 _ g.lake w2.0 in
    (
      w3.0,
      λ k few.
          w3.1 k
          ∙ ap (λ b. b || (k == 3 && is_home g.lake 4))
              (w2.1 k
                ∙ ap (λ b. b || (k == 2 && is_home g.lake 3))
                    (w1.1 k ∙ ap (λ b. b || (k == 1 && is_home g.lake 2)) (w0.1 k)))
          ∙ pick_four k (g.winners k) (λ p. is_home g.lake p) few,
    )

any_four : (k : ℕ) (w : ℕ → Bool) → k < 4 → w k ≡ true → (w 0 || w 1 || w 2 || w 3) ≡ true
any_four k w few e = ground arith

wincheck-some :
    (g : Game) (k : ℕ)
    → k < 4
    → (g.winners k || is_home g.lake (k + 1)) ≡ true
    → (wincheck g).1 ≡ true
wincheck-some g k few won =
    let noted = (wincheck_lem g).1 k few ∙ won in
    unfold wincheck in any_four k (wincheck g).0.winners few noted

-- The lake without the planned courses, and with the finish line drawn anew.
abbrev pub cleared : Lake → Lake
cleared l r c =
    if r == 6 && ltb c 12 then finish else if in_grid r c && l r c % 1000 == 178 then sea else l r c

pub clear_previews_lem :
    (g : Game)
    → ((r c : ℕ) → (clear_previews g).lake r c ≡ cleared g.lake r c)
      × ((clear_previews g).winners ≡ g.winners)
unfolding clear_previews setpreview printchange
clear_previews_lem g = (
  λ r c.
      setfinishline_lem (sweep (λ y x v. if v % 1000 == 178 then sea else v) g.lake) r c
      ∙ rw (sweep_lem (λ y x v. if v % 1000 == 178 then sea else v) g.lake r c) (ground arith),
  refl,
)

-- With a winner that is set already, as those of an earlier game are, `moveplayers` reports a winner
-- and has only cleared the planned courses and drawn the finish line: no ship has moved.
moveplayers_stale_winner :
    (rng : Rng) (players : ℕ) (g : Game) (k : ℕ)
    → k < 4
    → g.winners k ≡ true
    → ((moveplayers rng players g).1 ≡ true)
      × ((r c : ℕ) → (moveplayers rng players g).0.lake r c ≡ cleared g.lake r c)
unfolding moveplayers run_phases
moveplayers_stale_winner rng players g k few won =
    let start : Game = record g { savedpos = fill4 g.savedpos (0, 0) } in
    let clean = clear_previews_lem start in
    let ended : (wincheck (clear_previews start)).1 ≡ true =
      wincheck-some (clear_previews start) k few (rw (clean.1, won) refl) in
    rw ended (refl, λ r c. ap (λ l. l r c) (wincheck_lem (clear_previews start)).0 ∙ clean.0 r c)

-- A ship that lies on the finish line when `moveplayers` starts is lost, and has not won: the finish
-- line is drawn over it before `wincheck` looks for it.
pub clear_previews-IsAbsent :
    (g : Game) (p x : ℕ)
    → IsPlayer p
    → Ship g.lake p 6 x
    → x ≤ 10
    → IsAbsent (clear_previews g).lake p
      × ((wincheck (clear_previews g)).0.winners (p - 1) ≡ g.winners (p - 1))
clear_previews-IsAbsent g p x i s h =
    let clean = clear_previews_lem g in
    let gone : IsAbsent (clear_previews g).lake p =
      λ r c hr hc e. ground (arith, clean.0 r c, s.only r c hr hc, ship_code_lem p i) in
    let same : p - 1 + 1 ≡ p = omega (arith, i.first) in
    let away : is_home (clear_previews g).lake p ≡ false =
      rw (findship-missing (clear_previews g).lake p gone) refl in
    (
      gone,
      (wincheck_lem (clear_previews g)).1 (p - 1) (omega (arith, i.first, i.last))
          ∙ rw (same, away, clean.1) (ground arith),
    )
