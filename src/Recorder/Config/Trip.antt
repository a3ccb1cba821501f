-- ===== src/Recorder/Config/Trip.antt =====
-- The file that RealTime_Embedded_Systems/src/config.cpp writes is one that it reads.
use university_collection.Prelude.{ℕ, ◌-◌, ◌%◌, ◌<◌, ◌≡◌, refl, ap}
use university_collection.Prelude.{true, false, ltb, some, List, [], ◌∷◌, arith}
use university_collection.Prelude.Int.{ℤ, pos, negsuc}
use Prim.Native.String.{String}
use mathlib.Core.Option as Option
use university_collection.Recorder.Config.{
  Config, number, document, returned, load_from_file, load_fields, assign, to_int, to_size,
  get_affinities, affinity_loop, get_strings, string_loop, sanitize, create_config_file, written,
  written_count, written_fields, all_plain,
}

-- The range of an `int`.
abbrev IsInt : ℤ → Type 0
IsInt (pos n) = n < 2147483648
IsInt (negsuc n) = n < 2147483648

to_int-IsInt : (v : ℤ) → IsInt v → to_int v ≡ v
unfolding to_int
to_int-IsInt (pos n) h =
    let e : n % 4294967296 ≡ n = omega (arith, h) in
    let lt : ltb n 2147483648 ≡ true = ground (arith, h) in rw (e, lt) refl
to_int-IsInt (negsuc n) h =
    let e : n % 4294967296 ≡ n = omega (arith, h) in
    let lt : ltb (4294967295 - n) 2147483648 ≡ false = ground (arith, h) in
    let back : 4294967295 - (4294967295 - n) ≡ n = omega (arith, h) in rw (e, lt, back) refl

string_loop-written : (l : List String) → string_loop (written l) ≡ some l
unfolding string_loop
string_loop-written [] = refl
string_loop-written (x ∷ l) = rw (string_loop-written l) refl

-- The fields that are an `int`.
pub record Ints (c : Config) : Type 0 where
  pub ping : IsInt c.ping_interval_sec
  pub pong : IsInt c.pong_timeout_sec
  pub initial : IsInt c.initial_reconnection_delay_ms
  pub most : IsInt c.max_reconnection_delay_ms
  pub attempts : IsInt c.max_reconnection_attempts
  pub window : IsInt c.moving_average_time_window_minutes

-- A configuration whose processors are left open.
abbrev pub unpinned : Config → Config
unpinned c = record c {
  recording_affinities = [];
  statistics_affinities = [];
  exporting_affinities = [];
}

-- A count that is an `int64_t` too.
abbrev IsCount : ℕ → Type 0
IsCount n = n < 9223372036854775808

pub record Counts (c : Config) : Type 0 where
  pub recording : IsCount c.recording_workers_count
  pub statistics : IsCount c.statistics_workers_count
  pub exporting : IsCount c.exporting_workers_count

written_count-IsCount : (n : ℕ) → IsCount n → written_count n ≡ number (pos n)
unfolding written_count
written_count-IsCount n h =
    let lt : ltb n 9223372036854775808 ≡ true = ground (arith, h) in rw lt refl

pub load_from_file-written_fields :
    (cpu_count : ℕ) (c old : Config)
    → Ints c
    → Counts c
    → load_from_file cpu_count (document (written_fields c)) old
      ≡ returned true (sanitize (unpinned c))
unfolding load_from_file load_fields written_fields assign to_size get_affinities affinity_loop
    get_strings
load_from_file-written_fields cpu_count c old h few =
    rw
      (
        string_loop-written c.symbols,
        written_count-IsCount c.recording_workers_count few.recording,
        written_count-IsCount c.statistics_workers_count few.statistics,
        written_count-IsCount c.exporting_workers_count few.exporting,
        to_int-IsInt c.ping_interval_sec h.ping,
        to_int-IsInt c.pong_timeout_sec h.pong,
        to_int-IsInt c.initial_reconnection_delay_ms h.initial,
        to_int-IsInt c.max_reconnection_delay_ms h.most,
        to_int-IsInt c.max_reconnection_attempts h.attempts,
        to_int-IsInt c.moving_average_time_window_minutes h.window,
      )
      refl

-- A configuration whose symbols have no control character, quote or backslash, whose `int` fields are in
-- the range of an `int` and whose counts of workers are below 2 ^ 63: `createConfigFile` writes a document
-- from which `loadFromFile`, whatever the configuration was before, reads the same values back, sanitised
-- and without processors.
pub load_from_file-create_config_file :
    (cpu_count : ℕ) (c old : Config)
    → all_plain c.symbols ≡ true
    → Ints c
    → Counts c
    → Option.map (λ json. load_from_file cpu_count (document json) old) (create_config_file c)
      ≡ some (returned true (sanitize (unpinned c)))
unfolding create_config_file
load_from_file-create_config_file cpu_count c old plain h few =
    rw plain (ap some (load_from_file-written_fields cpu_count c old h few))
