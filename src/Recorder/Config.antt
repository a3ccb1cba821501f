-- ===== src/Recorder/Config.antt =====
-- The configuration of RealTime_Embedded_Systems/src/config.cpp. The JSON library is not modelled: a file
-- that it can read is the list of its fields.
pub mod Pins
pub mod Sane
pub mod Trip
use university_collection.Prelude.{ℕ, zero, suc, ◌+◌, ◌-◌, ◌%◌}
use university_collection.Prelude.{
  Bool, true, false, ltb, ◌==◌, if◌then◌else◌, Option, none, some, List, [], ◌∷◌,
}
use university_collection.Prelude.Int.{ℤ, pos, negsuc}
use Prim.Native.Char.{code}
use Prim.Native.String.{String}
use text.Mathlib.Text.{◌==◌ as str_eq}

pub record Config : Type 0 where
  pub ping_interval_sec : ℤ
  pub pong_timeout_sec : ℤ
  pub initial_reconnection_delay_ms : ℤ
  pub max_reconnection_delay_ms : ℤ
  pub max_reconnection_attempts : ℤ
  pub moving_average_time_window_minutes : ℤ
  pub recording_workers_count : ℕ
  pub statistics_workers_count : ℕ
  pub exporting_workers_count : ℕ
  pub recording_affinities : List ℕ
  pub statistics_affinities : List ℕ
  pub exporting_affinities : List ℕ
  pub symbols : List String

-- The constructor.
unfoldable pub default_config : Config
default_config = record {
  ping_interval_sec = pos 30;
  pong_timeout_sec = pos 10;
  initial_reconnection_delay_ms = pos 10000;
  max_reconnection_delay_ms = pos 60000;
  max_reconnection_attempts = pos 1000;
  moving_average_time_window_minutes = pos 15;
  recording_workers_count = 1;
  statistics_workers_count = 1;
  exporting_workers_count = 1;
  recording_affinities = [];
  statistics_affinities = [];
  exporting_affinities = [];
  symbols = "BINANCE:BTCUSDT" ∷ "NVDA" ∷ "AAPL" ∷ "GOOGL" ∷ "MSFT" ∷ [];
}

-- A value of a JSON field, as far as the program asks for it: an `int64_t`, an array of numbers without
-- sign, or an array of texts. An element of another type is `none`.
pub data Value : Type 0 where
  number : ℤ → Value
  numbers : List (Option ℕ) → Value
  texts : List (Option String) → Value
  other : Value

abbrev pub Document : Type 0
Document = List (String × Value)

-- `json[key]`
abbrev pub field : String → Document → Value
field key [] = other
field key ((name, v) ∷ rest) = if str_eq name key then v else field key rest

abbrev get_int64 : Value → Option ℤ
get_int64 (number v) = some v
get_int64 v = none

-- The value of an unsigned 32-bit pattern as an `int`.
abbrev pub signed : ℕ → ℤ
signed n = if ltb n 2147483648 then pos n else negsuc (4294967295 - n)

-- An `int64_t` put into an `int`, and into a `size_t`.
unfoldable pub to_int : ℤ → ℤ
to_int (pos n) = signed (n % 4294967296)
to_int (negsuc n) = signed (4294967295 - n % 4294967296)

unfoldable pub to_size : ℤ → ℕ
to_size (pos n) = n
to_size (negsuc n) = 18446744073709551615 - n

-- `std::set::insert`
unfoldable pub set_insert : ℕ → List ℕ → List ℕ
set_insert x [] = x ∷ []
set_insert x (y ∷ ys) =
    let rest = set_insert x ys in
    if ltb x y then x ∷ y ∷ ys else if ltb y x then y ∷ rest else y ∷ ys

-- The loop of `getAffinityVectorFromJson`; `none` is an error of the library.
unfoldable pub affinity_loop : (cpu_count : ℕ) → List (Option ℕ) → List ℕ → Option (List ℕ)
affinity_loop cpu_count [] set = some set
affinity_loop cpu_count (none ∷ items) set = none
affinity_loop cpu_count (some item ∷ items) set =
    let affinity = item % 4294967296 in
    affinity_loop cpu_count items (if ltb affinity cpu_count then set_insert affinity set else set)

unfoldable pub get_affinities : (cpu_count : ℕ) → Value → Option (List ℕ)
get_affinities cpu_count (numbers items) = affinity_loop cpu_count items []
get_affinities cpu_count (texts []) = some []
get_affinities cpu_count v = none

-- `getStringVectorFromJson`
unfoldable pub string_loop : List (Option String) → Option (List String)
string_loop [] = some []
string_loop (none ∷ items) = none
string_loop (some item ∷ items) = elim (string_loop items) [
  | none ↦ none
  | some rest ↦ some (item ∷ rest)
]

unfoldable pub get_strings : Value → Option (List String)
get_strings (texts items) = string_loop items
get_strings (numbers []) = some []
get_strings v = none

-- An assignment of the `try` block: an error leaves the fields that were assigned before.
unfoldable pub assign {ℓ} :
    {A : Type ℓ}
    → Option A
    → (A → Config → Config)
    → (Config → Bool × Config)
    → Config
    → Bool × Config
assign none set next c = (false, c)
assign (some v) set next c = next (set v c)

abbrev loaded : Config → Bool × Config
loaded c = (true, c)

-- The `try` block: whether it reached its end.
unfoldable pub load_fields : (cpu_count : ℕ) → Document → Config → Bool × Config
load_fields cpu_count json =
    assign (get_int64 (field "pingIntervalSec" json))
      (λ v c. record c { ping_interval_sec = to_int v })
      (assign (get_int64 (field "pongTimeoutSec" json))
        (λ v c. record c { pong_timeout_sec = to_int v })
        (assign (get_int64 (field "initialReconnectionDelayMs" json))
          (λ v c. record c { initial_reconnection_delay_ms = to_int v })
          (assign (get_int64 (field "maxReconnectionDelayMs" json))
            (λ v c. record c { max_reconnection_delay_ms = to_int v })
            (assign (get_int64 (field "maxReconnectionAttempts" json))
              (λ v c. record c { max_reconnection_attempts = to_int v })
              (assign (get_int64 (field "movingAverageTimeWindowMinutes" json))
                (λ v c. record c { moving_average_time_window_minutes = to_int v })
                (assign (get_int64 (field "recordingWorkersCount" json))
                  (λ v c. record c { recording_workers_count = to_size v })
                  (assign (get_int64 (field "statisticsWorkersCount" json))
                    (λ v c. record c { statistics_workers_count = to_size v })
                    (assign (get_int64 (field "exportingWorkersCount" json))
                      (λ v c. record c { exporting_workers_count = to_size v })
                      (assign (get_affinities cpu_count (field "recordingAffinities" json))
                        (λ v c. record c { recording_affinities = v })
                        (assign (get_affinities cpu_count (field "statisticsAffinities" json))
                          (λ v c. record c { statistics_affinities = v })
                          (assign (get_affinities cpu_count (field "exportingAffinities" json))
                            (λ v c. record c { exporting_affinities = v })
                            (assign (get_strings (field "symbols" json))
                              (λ v c. record c { symbols = v }) loaded))))))))))))

-- `std::max(n, low)` for a bound that is not negative.
abbrev pub at_least : ℕ → ℤ → ℤ
at_least low (pos n) = if ltb n low then pos low else pos n
at_least low (negsuc n) = pos low

-- `std::clamp`
abbrev pub clamp : (v low high : ℕ) → ℕ
clamp v low high = if ltb v low then low else if ltb high v then high else v

abbrev pub length {ℓ} : {A : Type ℓ} → List A → ℕ
length [] = 0
length (x ∷ xs) = suc (length xs)

unfoldable pub sanitize : Config → Config
sanitize c = record c {
  ping_interval_sec = at_least 1 c.ping_interval_sec;
  pong_timeout_sec = at_least 1 c.pong_timeout_sec;
  initial_reconnection_delay_ms = at_least 0 c.initial_reconnection_delay_ms;
  max_reconnection_delay_ms = at_least 0 c.max_reconnection_delay_ms;
  max_reconnection_attempts = at_least 0 c.max_reconnection_attempts;
  moving_average_time_window_minutes = at_least 1 c.moving_average_time_window_minutes;
  recording_workers_count = clamp c.recording_workers_count 1 (length c.symbols);
  statistics_workers_count = clamp c.statistics_workers_count 1 (length c.symbols);
  exporting_workers_count = clamp c.exporting_workers_count 1 (length c.symbols);
}

-- The file: it cannot be opened, or the JSON library refuses it, or it has fields.
pub data File : Type 0 where
  missing : File
  unreadable : File
  document : Document → File

-- How `loadFromFile` ends: it returns, or throws past its caller.
pub data Ending : Type 0 where
  returned : Bool → Config → Ending
  thrown : Config → Ending

abbrev pub after_fields : Bool × Config → Ending
after_fields (true, c) = returned true (sanitize c)
after_fields (false, c) = returned false c

unfoldable pub load_from_file : (cpu_count : ℕ) → File → Config → Ending
load_from_file cpu_count missing c = returned true c
load_from_file cpu_count unreadable c = thrown c
load_from_file cpu_count (document json) c = after_fields (load_fields cpu_count json c)

-- Whether a text that stands between quotes in a JSON file is read back as it was written: it has no
-- control character, no quote and no backslash.
unfoldable pub is_plain : String → Bool
is_plain String.[] = true
is_plain (String.◌∷◌ c s) =
    let rest = is_plain s in
    if ltb (code c) 32
    then false
    else if code c == 34
    then false
    else if code c == 92
    then false
    else rest

unfoldable pub all_plain : List String → Bool
all_plain [] = true
all_plain (symbol ∷ rest) = let others = all_plain rest in if is_plain symbol then others else false

abbrev pub written : List String → List (Option String)
written [] = []
written (symbol ∷ rest) = some symbol ∷ written rest

-- A `size_t` in the file: from 2 ^ 63 on it is no `int64_t`.
unfoldable pub written_count : ℕ → Value
written_count n = if ltb n 9223372036854775808 then number (pos n) else other

unfoldable pub written_fields : Config → Document
written_fields c =
    ("pingIntervalSec", number c.ping_interval_sec)
    ∷ ("pongTimeoutSec", number c.pong_timeout_sec)
    ∷ ("initialReconnectionDelayMs", number c.initial_reconnection_delay_ms)
    ∷ ("maxReconnectionDelayMs", number c.max_reconnection_delay_ms)
    ∷ ("maxReconnectionAttempts", number c.max_reconnection_attempts)
    ∷ ("movingAverageTimeWindowMinutes", number c.moving_average_time_window_minutes)
    ∷ ("recordingWorkersCount", written_count c.recording_workers_count)
    ∷ ("statisticsWorkersCount", written_count c.statistics_workers_count)
    ∷ ("exportingWorkersCount", written_count c.exporting_workers_count)
    ∷ ("recordingAffinities", numbers [])
    ∷ ("statisticsAffinities", numbers [])
    ∷ ("exportingAffinities", numbers [])
    ∷ ("symbols", texts (written c.symbols))
    ∷ []

-- `createConfigFile`, for a file that can be opened: the fields in the text that it writes. The symbols
-- are written without escapes. What the text is to the JSON library when one of them is not plain is not
-- modelled: `none`.
unfoldable pub create_config_file : Config → Option Document
create_config_file c = if all_plain c.symbols then some (written_fields c) else none
