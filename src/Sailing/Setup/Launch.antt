-- ===== src/Sailing/Setup/Launch.antt =====
-- The state in which `sailing` of Structured_Programming/main.c starts to play.
use university_collection.Prelude.{
  ℕ, suc, ◌≤◌, ◌<◌, ◌≡◌, refl, ap, ◌∙◌, subst, sym, true, ◌==◌, if◌then◌else◌,
}
use university_collection.Prelude.{Bool-cases, ==→≡, ==→≢, ≢→==, inl, inr, Option, arith}
use university_collection.Prelude.Int.{ℤ, pos, incr}
use university_collection.Sailing.State.{Game}
use university_collection.Sailing.Wind.{is_kind}
use university_collection.Sailing.Round.{for4}
use university_collection.Sailing.Round.Saved.{for4-induction}
use university_collection.Sailing.Setup.{lake_reset, set_players, reset_state, extra_life, launch}
use university_collection.Sailing.Setup.Start.{InLine, set_players-InLine}

-- The lives with which a player with this kind of ship starts.
abbrev pub first_lives : Option ℕ → ℤ
first_lives ship = if is_kind 2 ship then pos 2 else pos 1

-- After `k` players have had their extra life, what the loop leaves.
record Equipped (g : Game) (k : ℕ) (h : Game) : Type 0 where
  lake : h.lake ≡ g.lake
  living : h.alive ≡ g.alive
  wrecks : h.wreckcounter ≡ g.wreckcounter
  crews : h.ships ≡ g.ships
  given : (i : ℕ) → i < k → h.lives i ≡ first_lives (g.ships i)
  later : (i : ℕ) → k ≤ i → h.lives i ≡ g.lives i

extra_life-Equipped :
    (g : Game) (i : ℕ) (h : Game)
    → g.lives i ≡ pos 1
    → Equipped g i h
    → Equipped g (suc i) (extra_life i h)
unfolding extra_life incr
extra_life-Equipped g i h one e =
    let now : h.lives i ≡ pos 1 = e.later i (omega arith) ∙ one in
    let kind : is_kind 2 (h.ships i) ≡ is_kind 2 (g.ships i) = ap (λ s. is_kind 2 (s i)) e.crews in
    elim (Bool-cases (is_kind 2 (h.ships i))) [
      | inl large ↦ rw large (record {
        lake = e.lake;
        living = e.living;
        wrecks = e.wrecks;
        crews = e.crews;
        given = λ j hj. elim (Bool-cases (j == i)) [
          | inl same ↦ rw (same, ==→≡ j i same, sym kind ∙ large) (ap incr now)
          | inr other ↦ rw other (e.given j (omega (arith, ==→≢ j i other)))
        ];
        later = λ j hj. rw (≢→== j i (λ q. omega (arith, q, hj))) (e.later j (omega (arith, hj)));
      })
      | inr small ↦ rw small (record {
        lake = e.lake;
        living = e.living;
        wrecks = e.wrecks;
        crews = e.crews;
        given = λ j hj. elim (Bool-cases (j == i)) [
          | inl same ↦ rw (==→≡ j i same, sym kind ∙ small) now
          | inr other ↦ e.given j (omega (arith, ==→≢ j i other))
        ];
        later = λ j hj. e.later j (omega (arith, hj));
      })
    ]

-- Whatever the game before was, after the resets of `sailing` and the choice of ships and names, what
-- is left to do before the first round gives up to four players a ship each, in line on the lake of
-- `lake_reset`, and one life, or two with the third kind of ship; all are alive, and no wreck counts.
pub launch_lem :
    (g : Game) (players : ℕ) (ships : ℕ → Option ℕ) (names : ℕ → ℕ → ℕ)
    → players ≤ 4
    → let h = launch players (record (reset_state g) { ships = ships; names = names }) in
      InLine h.lake players
      × ((i : ℕ)
          → i < 4
          → (h.lives i ≡ first_lives (ships i)) × (h.alive i ≡ true) × (h.wreckcounter i ≡ 0))
unfolding launch reset_state
launch_lem g players ships names few =
    let start : Game = record (reset_state g) {
      ships = ships;
      names = names;
      lake = set_players players (lake_reset g.lake);
    } in
    let e : Equipped start 4 (for4 extra_life start) =
      for4-induction (Equipped start) extra_life start
        (record {
          lake = refl;
          living = refl;
          wrecks = refl;
          crews = refl;
          given = λ i h. absurd (omega (arith, h));
          later = λ i h. refl;
        })
        (λ i a few_left v. extra_life-Equipped start i a (ground (arith, few_left)) v) in
    (
      subst (λ l. InLine l players) (sym e.lake) (set_players-InLine g.lake players few),
      λ i h. (
        e.given i h,
        ap (λ a. a i) e.living ∙ ground (arith, h),
        ap (λ a. a i) e.wrecks ∙ ground (arith, h),
      ),
    )
