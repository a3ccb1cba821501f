-- ===== src/Sailing/Screen.antt =====
-- The lake on the console in Structured_Programming/main.c: `printlake` draws all of it, and
-- `setpreview` and `printchange` around a change draw only the cells that differ.
use university_collection.Prelude.{ℕ, ◌≡◌, ap, ◌∙◌, true, ◌==◌, if◌then◌else◌, arith}
use university_collection.Sailing.Lake.{in_grid, sweep}
use university_collection.Sailing.Lake.Find.{sweep_lem}
use university_collection.Sailing.State.{Game}

unfoldable pub setpreview : Game → Game
setpreview g = record g { prevlake = sweep (λ y x _. g.lake y x) g.prevlake }

unfoldable pub printchange : Game → Game
printchange g = record g {
  screen = sweep (λ y x s. if g.lake y x == g.prevlake y x then s else g.lake y x) g.screen;
}

-- The part of `printlake` that draws the cells of the lake.
unfoldable printlake : Game → Game
printlake g = record g { screen = sweep (λ y x _. g.lake y x) g.screen }

-- The console shows the lake as it is.
abbrev pub InSync : Game → Type 0
InSync g = (r c : ℕ) → in_grid r c ≡ true → g.screen r c ≡ g.lake r c

printlake-InSync : (g : Game) → InSync (printlake g)
unfolding printlake
printlake-InSync g r c h = sweep_lem (λ y x _. g.lake y x) g.screen r c ∙ ground arith

-- Drawing only the cells that differ is as good as drawing all: if the console showed the lake at
-- `setpreview`, and what ran since then touched neither `prevlake` nor the console, it shows the
-- lake again after `printchange`.
pub printchange-InSync :
    (g h : Game)
    → InSync g
    → h.prevlake ≡ (setpreview g).prevlake
    → h.screen ≡ g.screen
    → InSync (printchange h)
unfolding printchange setpreview
printchange-InSync g h sync prev same r c inside = ground (
  arith,
  sweep_lem (λ y x s. if h.lake y x == h.prevlake y x then s else h.lake y x) h.screen r c,
  ap (λ l. l r c) prev,
  ap (λ l. l r c) same,
  sweep_lem (λ y x _. g.lake y x) g.prevlake r c,
  sync r c inside,
)
