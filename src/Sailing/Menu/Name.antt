-- ===== src/Sailing/Menu/Name.antt =====
-- What `name_select` of Structured_Programming/main.c makes of the keys that are typed.
use university_collection.Prelude.{
  ℕ, suc, ◌+◌, ◌-◌, ◌≤◌, ◌<◌, ◌≡◌, refl, sym, ap, ◌∙◌, ◌≢◌, ◌⊎◌, inl, inr,
}
use university_collection.Prelude.{true, false, ◌&&◌, ◌==◌, if◌then◌else◌}
use university_collection.Prelude.{Bool-cases, ==→≢, ≡→==, ≢→==, arith}
use university_collection.Prelude.{some, List, [], ◌∷◌, ◌++◌}
use university_collection.Sailing.State.{Game}
use university_collection.Sailing.Menu.{
  enter, esc, is_letter, Entry, write_name, name_step, name_loop,
}
use university_collection.Sailing.Menu.{name_select}
use university_collection.Sailing.Menu.Select.{IsBrowsing}

-- A name is a list of letters, the last one first.
abbrev letters : List ℕ → ℕ
letters [] = 0
letters (c ∷ name) = suc (letters name)

abbrev drop_last : List ℕ → List ℕ
drop_last [] = []
drop_last (c ∷ name) = name

-- A key adds a letter to a name of less than ten, and Backspace takes the last one away.
abbrev type_key : List ℕ → ℕ → List ℕ
type_key name key =
    if is_letter key
    then (if letters name == 10 then name else key ∷ name)
    else if key == 8
    then drop_last name
    else name

abbrev pub type_keys : List ℕ → List ℕ → List ℕ
type_keys name [] = name
type_keys name (key ∷ keys) = type_keys (type_key name key) keys

-- The array `a` begins with the letters of the name.
abbrev pub Shows : (ℕ → ℕ) → List ℕ → Type 0
Shows a [] = Unit
Shows a (c ∷ name) = (a (letters name) ≡ c) × Shows a name

Shows-frame :
    (a b : ℕ → ℕ) (name : List ℕ)
    → ((i : ℕ) → i < letters name → b i ≡ a i)
    → Shows a name
    → Shows b name
Shows-frame a b [] same s = tt
Shows-frame a b (c ∷ name) same (e, s) =
    (same (letters name) (omega arith) ∙ e, Shows-frame a b name (λ i h. same i (omega arith)) s)

letters-zero : (name : List ℕ) → name ≢ [] → letters name ≢ 0
letters-zero [] given z = given refl
letters-zero (c ∷ name) given z = omega (arith, z)

shift : (n k : ℕ) → n + suc (suc k) ≡ (n + 1) + suc k
shift n k = omega arith

-- The entry of player number `q + 1`, after keys that led from an empty name to `name`.
module _ (q : ℕ) (old : ℕ → ℕ → ℕ) where
  pub record Typed (e : Entry) (name : List ℕ) (typed : ℕ) : Type 0 where
    pub turn : e.game.player_turn - 1 ≡ q
    pub length : e.position ≡ letters name
    pub short : letters name ≤ 10
    pub few : letters name ≤ typed
    pub shows : Shows (e.game.names q) name
    pub rest : (i : ℕ) → (typed ≤ i) ⊎ (10 ≤ i) → e.game.names q i ≡ old q i
    pub others : (p i : ℕ) → p ≢ q → e.game.names p i ≡ old p i

  write-names :
      (g : Game) (k v p i : ℕ)
      → g.player_turn - 1 ≡ q
      → (write_name g k v).names p i ≡ (if p == q && i == k then v else g.names p i)
  write-names g k v p i e = rw e (ground arith)

  keep-Typed : (e : Entry) (name : List ℕ) (n : ℕ) → Typed e name n → Typed e name (n + 1)
  keep-Typed e name n t = record {
    turn = t.turn;
    length = t.length;
    short = t.short;
    few = omega (arith, t.few);
    shows = t.shows;
    rest = λ i h. t.rest i (elim h [ inl a ↦ inl (omega arith) | inr b ↦ inr b ]);
    others = t.others;
  }

  add-Typed :
      (e : Entry) (name : List ℕ) (n key : ℕ)
      → letters name ≢ 10
      → Typed e name n
      → Typed
          (record e { game = write_name e.game e.position key; position = e.position + 1 })
          (key ∷ name)
          (n + 1)
  add-Typed e name n key room t = record {
    turn = t.turn;
    length = omega (arith, t.length);
    short = omega (arith, t.short);
    few = omega (arith, t.few);
    shows = (
      write-names e.game e.position key q (letters name) t.turn ∙ ground (arith, t.length),
      Shows-frame (e.game.names q) _ name
          (λ i h. write-names e.game e.position key q i t.turn ∙ ground (arith, t.length)) t.shows,
    );
    rest = λ i h.
        write-names e.game e.position key q i t.turn
        ∙ ground (arith, t.length, t.short, t.few, t.rest i);
    others = λ p i ne. write-names e.game e.position key p i t.turn ∙ ground (arith, t.others p i);
  }

  drop-Typed :
      (e : Entry) (c : ℕ) (name : List ℕ) (n : ℕ)
      → Typed e (c ∷ name) n
      → Typed
          (record e { game = write_name e.game (e.position - 1) 0; position = e.position - 1 })
          name
          (n + 1)
  drop-Typed e c name n t = record {
    turn = t.turn;
    length = omega (arith, t.length);
    short = omega (arith, t.short);
    few = omega (arith, t.few);
    shows =
        Shows-frame (e.game.names q) _ name
          (λ i h. write-names e.game (e.position - 1) 0 q i t.turn ∙ ground (arith, t.length))
          t.shows.1;
    rest = λ i h.
        write-names e.game (e.position - 1) 0 q i t.turn
        ∙ ground (arith, t.length, t.short, t.few, t.rest i);
    others =
        λ p i ne. write-names e.game (e.position - 1) 0 p i t.turn ∙ ground (arith, t.others p i);
  }

  -- What follows a Backspace.
  back-Typed :
      (e : Entry) (name : List ℕ) (n : ℕ)
      → Typed e name n
      → Typed
          (if e.position == 0 then e else record e {
            game = write_name e.game (e.position - 1) 0;
            position = e.position - 1;
          })
          (drop_last name)
          (n + 1)
  back-Typed e [] n t = rw (≡→== e.position 0 t.length) (keep-Typed e [] n t)
  back-Typed e (c ∷ name) n t =
      let some_letter : (e.position == 0) ≡ false = ground (arith, t.length) in
      rw some_letter (drop-Typed e c name n t)

  letter-Typed :
      (e : Entry) (name : List ℕ) (n key : ℕ)
      → Typed e name n
      → Typed
          (if e.position == 10
            then e
            else record e { game = write_name e.game e.position key; position = e.position + 1 })
          (if letters name == 10 then name else key ∷ name)
          (n + 1)
  letter-Typed e name n key t = elim (Bool-cases (letters name == 10)) [
    | inl full ↦ rw (ap (λ k. k == 10) t.length, full) (keep-Typed e name n t)
    | inr free ↦
        rw (ap (λ k. k == 10) t.length, free)
          (add-Typed e name n key (==→≢ (letters name) 10 free) t)
  ]

  step-Typed :
      (e : Entry) (name : List ℕ) (n key : ℕ)
      → key ≢ esc
      → Typed e name n
      → (f : Entry) × (name_step e key ≡ some f) × Typed f (type_key name key) (n + 1)
  unfolding name_step
  step-Typed e name n key other t = elim (Bool-cases (is_letter key)) [
    | inl letter ↦ rw letter (_, refl, letter-Typed e name n key t)
    | inr none_typed ↦ elim (Bool-cases (key == 8)) [
      | inl back ↦ rw (none_typed, back) (_, refl, back-Typed e name n t)
      | inr next ↦ rw (none_typed, next, ≢→== key esc other) (e, refl, keep-Typed e name n t)
    ]
  ]

  -- Enter on a name that is not empty.
  accept-Typed :
      (e : Entry) (name : List ℕ) (n input : ℕ) (rest : List ℕ)
      → input ≢ esc
      → Typed e name n
      → type_key name input ≢ []
      → (h : Entry) × (name_loop e input (enter ∷ rest) ≡ some ((h.game, true), rest))
        × Typed h (type_key name input) (n + 1)
  unfolding name_loop
  accept-Typed e name n input rest other t given =
      let (f, step, u) = step-Typed e name n input other t in
      let some_letter : (f.position == 0) ≡ false =
        ≢→== f.position 0 (λ z. letters-zero (type_key name input) given (sym u.length ∙ z)) in
      (f, rw (name_loop, step, some_letter) refl, u)

  loop-Typed :
      (e : Entry) (name : List ℕ) (n input : ℕ) (typed rest : List ℕ)
      → input ≢ esc
      → IsBrowsing typed
      → Typed e name n
      → type_keys name (input ∷ typed) ≢ []
      → (h : Entry) × (name_loop e input (typed ++ enter ∷ rest) ≡ some ((h.game, true), rest))
        × Typed h (type_keys name (input ∷ typed)) (n + letters (input ∷ typed))
  unfolding name_loop
  loop-Typed e name n input [] rest other b t given = accept-Typed e name n input rest other t given
  loop-Typed e name n input (key ∷ typed) rest other (goes_on, stays, b) t given =
      let (f, step, u) = step-Typed e name n input other t in
      let (h, run, v) = loop-Typed f (type_key name input) (n + 1) key typed rest stays b u given in
      (h, rw (name_loop, step, ≢→== key enter goes_on) run, rw (shift n (letters typed)) v)

-- The name of a player is typed with keys that neither confirm nor leave, then Enter. If a letter
-- is left, `name_select` returns the flag, leaves the later keys, and has written the letters of
-- that name, at most ten, to the player's array. The array keeps what it held at each index that
-- is past the number of the keys, or past the tenth letter, and the names of the other players are
-- as before.
pub name_select_lem :
    (g : Game) (typed rest : List ℕ)
    → IsBrowsing typed
    → type_keys [] typed ≢ []
    → (h : Game) × (name_select g (typed ++ enter ∷ rest) ≡ some ((h, true), rest))
      × Shows (h.names (g.player_turn - 1)) (type_keys [] typed)
      × (letters (type_keys [] typed) ≤ 10)
      × ((i : ℕ)
          → (suc (letters typed) ≤ i) ⊎ (10 ≤ i)
          → h.names (g.player_turn - 1) i ≡ g.names (g.player_turn - 1) i)
      × ((p i : ℕ) → p ≢ g.player_turn - 1 → h.names p i ≡ g.names p i)
unfolding name_select
name_select_lem g typed rest b given =
    let start : Typed (g.player_turn - 1) g.names (record { game = g; position = 0 }) [] 0 =
      record {
        turn = refl;
        length = refl;
        short = omega arith;
        few = omega arith;
        shows = tt;
        rest = λ i h. refl;
        others = λ p i ne. refl;
      } in
    let (h, run, v) =
      loop-Typed (g.player_turn - 1) g.names (record { game = g; position = 0 }) [] 0 0 typed rest
        (omega arith) b start given in
    (
      h.game,
      run,
      v.shows,
      v.short,
      λ i past. v.rest i (elim past [ inl a ↦ inl (omega arith) | inr c ↦ inr c ]),
      v.others,
    )
