-- ===== src/Recorder/Config/Pins.antt =====
-- The lists of processors that RealTime_Embedded_Systems/src/config.cpp reads.
use university_collection.Prelude.{ℕ, ◌+◌, ◌%◌, ◌≤◌, ◌<◌, ◌≡◌, refl, inl, inr, subst, sym}
use university_collection.Prelude.{Bool, ltb, Option, none, some, List, [], ◌∷◌, arith, Bool-cases}
use university_collection.Recorder.Config.{
  Config, Value, number, numbers, texts, other, Document, field, assign,
}
use university_collection.Recorder.Config.{load_fields, set_insert, affinity_loop, get_affinities}

-- In order, none twice, from `low` on and below the number of processors.
abbrev pub Ascending : (low cpu_count : ℕ) → List ℕ → Type 0
Ascending low cpu_count [] = Unit
Ascending low cpu_count (x ∷ xs) = (low ≤ x) × (x < cpu_count) × Ascending (x + 1) cpu_count xs

-- The processors of a configuration.
pub record Pinned (cpu_count : ℕ) (c : Config) : Type 0 where
  pub recording : Ascending 0 cpu_count c.recording_affinities
  pub statistics : Ascending 0 cpu_count c.statistics_affinities
  pub exporting : Ascending 0 cpu_count c.exporting_affinities

set_insert-Ascending :
    (x low cpu_count : ℕ) (l : List ℕ)
    → low ≤ x
    → x < cpu_count
    → Ascending low cpu_count l
    → Ascending low cpu_count (set_insert x l)
unfolding set_insert
set_insert-Ascending x low n [] le lt a = (le, lt, tt)
set_insert-Ascending x low n (y ∷ ys) le lt a = elim (Bool-cases (ltb x y)) [
  | inl before ↦ rw before (le, lt, (ground (arith, before), a.1, a.2))
  | inr not_before ↦ elim (Bool-cases (ltb y x)) [
    | inl after ↦
        rw (not_before, after)
          (a.0, a.1, set_insert-Ascending x (y + 1) n ys (ground (arith, after)) lt a.2)
    | inr same ↦ rw (not_before, same) a
  ]
]

-- What an optional result is worth.
abbrev Gives {ℓ} : {A : Type ℓ} → (A → Type 0) → Option A → Type 0
Gives P none = Unit
Gives P (some v) = P v

affinity_loop-Ascending :
    (cpu_count : ℕ) (items : List (Option ℕ)) (set : List ℕ)
    → Ascending 0 cpu_count set
    → Gives (Ascending 0 cpu_count) (affinity_loop cpu_count items set)
unfolding affinity_loop
affinity_loop-Ascending n [] set a = a
affinity_loop-Ascending n (none ∷ items) set a = tt
affinity_loop-Ascending n (some item ∷ items) set a =
    let affinity = item % 4294967296 in
    affinity_loop-Ascending n items _ (elim (Bool-cases (ltb affinity n)) [
      | inl e ↦ rw e (set_insert-Ascending affinity 0 n set (omega arith) (ground (arith, e)) a)
      | inr e ↦ rw e a
    ])

get_affinities-Ascending :
    (cpu_count : ℕ) (v : Value) → Gives (Ascending 0 cpu_count) (get_affinities cpu_count v)
unfolding get_affinities
get_affinities-Ascending n (numbers items) = affinity_loop-Ascending n items [] tt
get_affinities-Ascending n (texts []) = tt
get_affinities-Ascending n (texts (x ∷ xs)) = tt
get_affinities-Ascending n (number v) = tt
get_affinities-Ascending n other = tt

same_Pinned :
    {n : ℕ} (c d : Config)
    → d.recording_affinities ≡ c.recording_affinities
    → d.statistics_affinities ≡ c.statistics_affinities
    → d.exporting_affinities ≡ c.exporting_affinities
    → Pinned n c
    → Pinned n d
same_Pinned {n} c d r s e p = record {
  recording = subst (Ascending 0 n) (sym r) p.recording;
  statistics = subst (Ascending 0 n) (sym s) p.statistics;
  exporting = subst (Ascending 0 n) (sym e) p.exporting;
}

-- A part of the `try` block that leaves the processors in order.
pub record Keeps (n : ℕ) (f : Config → Bool × Config) : Type 0 where
  pub keep : (c : Config) → Pinned n c → Pinned n (f c).1

module _ {A : Type 0} (n : ℕ) (set : A → Config → Config) (next : Config → Bool × Config) where
  kept_by :
      (P : A → Type 0) (o : Option A)
      → Gives P o
      → ((v : A) → P v → (c : Config) → Pinned n c → Pinned n (set v c))
      → (c : Config) → Keeps n next
      → Pinned n c
      → Pinned n (assign o set next c).1
  unfolding assign
  kept_by P none g keeps c later p = p
  kept_by P (some v) g keeps c later p = later.keep (set v c) (keeps v g c p)

  untouched :
      (o : Option A)
      → ((v : A) (c : Config) → Pinned n c → Pinned n (set v c))
      → Keeps n next
      → Keeps n (assign o set next)
  unfolding assign
  untouched none keeps later = record { keep = λ c p. p }
  untouched (some v) keeps later = record { keep = λ c p. later.keep (set v c) (keeps v c p) }

  pinned :
      (P : A → Type 0) (o : Option A)
      → Gives P o
      → ((v : A) → P v → (c : Config) → Pinned n c → Pinned n (set v c))
      → Keeps n next
      → Keeps n (assign o set next)
  pinned P o g keeps later = record { keep = λ c p. kept_by P o g keeps c later p }

pub load_fields-Keeps : (n : ℕ) (json : Document) → Keeps n (load_fields n json)
unfolding load_fields
load_fields-Keeps n json =
    untouched n _ _ _ (λ v c. same_Pinned c _ refl refl refl)
      (untouched n _ _ _ (λ v c. same_Pinned c _ refl refl refl)
        (untouched n _ _ _ (λ v c. same_Pinned c _ refl refl refl)
          (untouched n _ _ _ (λ v c. same_Pinned c _ refl refl refl)
            (untouched n _ _ _ (λ v c. same_Pinned c _ refl refl refl)
              (untouched n _ _ _ (λ v c. same_Pinned c _ refl refl refl)
                (untouched n _ _ _ (λ v c. same_Pinned c _ refl refl refl)
                  (untouched n _ _ _ (λ v c. same_Pinned c _ refl refl refl)
                    (untouched n _ _ _ (λ v c. same_Pinned c _ refl refl refl)
                      (pinned n _ _ _ _
                        (get_affinities-Ascending n (field "recordingAffinities" json))
                        (λ v a c p. record {
                          recording = a;
                          statistics = p.statistics;
                          exporting = p.exporting;
                        })
                        (pinned n _ _ _ _
                          (get_affinities-Ascending n (field "statisticsAffinities" json))
                          (λ v a c p. record {
                            recording = p.recording;
                            statistics = a;
                            exporting = p.exporting;
                          })
                          (pinned n _ _ _ _
                            (get_affinities-Ascending n (field "exportingAffinities" json))
                            (λ v a c p. record {
                              recording = p.recording;
                              statistics = p.statistics;
                              exporting = a;
                            })
                            (untouched n _ _ _ (λ v c. same_Pinned c _ refl refl refl)
                              (record { keep = λ c p. p })))))))))))))
