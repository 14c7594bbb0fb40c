-- ===== src/Config/Durations.antt =====
-- `std::time::Duration` as a number of nanoseconds, and the text form of src/config.rs.
use Prim.Native.String.{String}
use ampered.Prelude.{ℕ, ◌*◌, Bool, ◌==◌, if◌then◌else◌, Option, some, str_eq, trim}

abbrev pub Duration : Type 0
Duration = ℕ

abbrev pub from_secs : ℕ → Duration
from_secs s = s * 1000000000

abbrev pub from_millis : ℕ → Duration
from_millis ms = ms * 1000000

abbrev pub is_zero : Duration → Bool
is_zero d = d == 0

-- `humantime` is the crate's printer of durations.
unfoldable pub format_duration : (Duration → String) → Duration → String
format_duration humantime d = if is_zero d then "0" else humantime d

-- `humantime` is the crate's parser of durations; what it refuses is `none`.
unfoldable pub parse_duration : (String → Option Duration) → String → Option Duration
unfolding trim
parse_duration humantime s = if str_eq (trim s) "0" then some 0 else humantime (trim s)

abbrev pub max_timeout : Duration
max_timeout = from_secs (24 * 60 * 60)

abbrev pub min_check_interval : Duration
min_check_interval = from_secs 120
