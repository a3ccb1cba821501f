-- ===== src/Recorder/Config/Sane.antt =====
-- What loading the configuration of RealTime_Embedded_Systems/src/config.cpp guarantees.
use university_collection.Prelude.{ℕ, ◌≤◌, ◌<◌, ◌≡◌, inl, inr, subst, sym}
use university_collection.Prelude.{Bool, true, false, ltb, arith, Bool-cases}
use university_collection.Prelude.Int.{ℤ, pos, negsuc}
use university_collection.Recorder.Config.{Config, default_config, at_least, clamp, length}
use university_collection.Recorder.Config.{
  File, missing, unreadable, document, returned, after_fields, load_from_file, load_fields,
  sanitize,
}
use university_collection.Recorder.Config.Pins.{Ascending, Pinned, load_fields-Keeps}

-- A number from a bound on.
abbrev AtLeast : ℕ → ℤ → Type 0
AtLeast low (pos n) = low ≤ n
AtLeast low (negsuc n) = ⊥

-- The ranges that the rest of the program relies on.
pub record Sane (cpu_count : ℕ) (c : Config) : Type 0 where
  pub ping : AtLeast 1 c.ping_interval_sec
  pub pong : AtLeast 1 c.pong_timeout_sec
  pub initial : AtLeast 0 c.initial_reconnection_delay_ms
  pub most : AtLeast 0 c.max_reconnection_delay_ms
  pub attempts : AtLeast 0 c.max_reconnection_attempts
  pub window : AtLeast 1 c.moving_average_time_window_minutes
  pub recording : (1 ≤ c.recording_workers_count) × (c.recording_workers_count ≤ length c.symbols)
  pub statistics :
      (1 ≤ c.statistics_workers_count) × (c.statistics_workers_count ≤ length c.symbols)
  pub exporting : (1 ≤ c.exporting_workers_count) × (c.exporting_workers_count ≤ length c.symbols)
  pub recording_cpus : Ascending 0 cpu_count c.recording_affinities
  pub statistics_cpus : Ascending 0 cpu_count c.statistics_affinities
  pub exporting_cpus : Ascending 0 cpu_count c.exporting_affinities

at_least-AtLeast : (low : ℕ) (v : ℤ) → AtLeast low (at_least low v)
at_least-AtLeast low (pos n) = elim (Bool-cases (ltb n low)) [
  | inl e ↦ rw e (omega arith)
  | inr e ↦ rw e (ground (arith, e))
]
at_least-AtLeast low (negsuc n) = omega arith

clamp_range : (v n : ℕ) → 0 < n → (1 ≤ clamp v 1 n) × (clamp v 1 n ≤ n)
clamp_range v n h = (ground (arith, h), ground (arith, h))

sanitize-Sane :
    (cpu_count : ℕ) (c : Config)
    → Pinned cpu_count c
    → 0 < length c.symbols
    → Sane cpu_count (sanitize c)
unfolding sanitize
sanitize-Sane cpu_count c p h = record {
  ping = at_least-AtLeast 1 c.ping_interval_sec;
  pong = at_least-AtLeast 1 c.pong_timeout_sec;
  initial = at_least-AtLeast 0 c.initial_reconnection_delay_ms;
  most = at_least-AtLeast 0 c.max_reconnection_delay_ms;
  attempts = at_least-AtLeast 0 c.max_reconnection_attempts;
  window = at_least-AtLeast 1 c.moving_average_time_window_minutes;
  recording = clamp_range c.recording_workers_count (length c.symbols) h;
  statistics = clamp_range c.statistics_workers_count (length c.symbols) h;
  exporting = clamp_range c.exporting_workers_count (length c.symbols) h;
  recording_cpus = p.recording;
  statistics_cpus = p.statistics;
  exporting_cpus = p.exporting;
}

returned-ok : {a b : Bool} {c d : Config} → returned a c ≡ returned b d → (a ≡ b) × (c ≡ d)
returned-ok e = (cc, cc)

after_fields-Sane :
    (n : ℕ) (r : Bool × Config) (c : Config)
    → Pinned n r.1
    → after_fields r ≡ returned true c
    → 0 < length c.symbols
    → Sane n c
unfolding sanitize
after_fields-Sane n (true, d) c p e h =
    let same : sanitize d ≡ c = (returned-ok e).1 in
    subst (Sane n) same (sanitize-Sane n d p (subst (λ x. 0 < length x.symbols) (sym same) h))
after_fields-Sane n (false, d) c p e h = absurd (let f : false ≡ true = (returned-ok e).0 in cc)

-- When `loadFromFile` returns true, from a file or with the defaults where there is none, and there is a
-- symbol, the intervals and the window are positive, no delay or number of attempts is negative, each
-- kind of worker has at least one and no more than there are symbols, and each list of processors
-- ascends and stays below their number.
pub load_from_file-Sane :
    (cpu_count : ℕ) (file : File) (c : Config)
    → load_from_file cpu_count file default_config ≡ returned true c
    → 0 < length c.symbols
    → Sane cpu_count c
unfolding load_from_file default_config
load_from_file-Sane n missing c e h = subst (Sane n) ((returned-ok e).1) (record {
  ping = omega arith;
  pong = omega arith;
  initial = omega arith;
  most = omega arith;
  attempts = omega arith;
  window = omega arith;
  recording = omega arith;
  statistics = omega arith;
  exporting = omega arith;
  recording_cpus = tt;
  statistics_cpus = tt;
  exporting_cpus = tt;
})
load_from_file-Sane n unreadable c e h = absurd (cc)
load_from_file-Sane n (document json) c e h =
    after_fields-Sane n (load_fields n json default_config) c
      ((load_fields-Keeps n json).keep default_config
        (record { recording = tt; statistics = tt; exporting = tt }))
      e h
