-- ===== src/Wake/Rtc.antt =====
-- The RTC alarm (src/sleep/rtc.rs): the horizon, the two backends and the text of a pending alarm. Times
-- are nanoseconds since the epoch; the attribute in sysfs and the program rtcwake are parameters.
use Prim.Native.Char.{code}
use ampered.Prelude.{
  ℕ, ◌+◌, ◌-◌, ◌*◌, ◌/◌, ◌^◌, Bool, true, false, ◌&&◌, List, [], ◌∷◌, Option, none, some, String,
  if◌then◌else◌, ltb, leb, is_blank, trim, strip_char, decimal,
}
use ampered.Config.Durations.{Duration, from_secs}
use ampered.Config.Sections.{RtcBackend}
use ampered.Daemon.State.{RtcAlarm}

abbrev pub min_horizon : Duration
min_horizon = from_secs 60

-- `epoch_for`: the seconds to write. No time here is before the epoch.
unfoldable pub epoch_for : ℕ → ℕ → Option ℕ
epoch_for at now = if ltb at (now + min_horizon) then none else some (at / 10 ^ 9)

-- `parse` of a `u64`: decimal digits, with at most a plus sign in front.
unfoldable pub parse_digits : String → ℕ → Option ℕ
parse_digits (String.[]) acc = some acc
parse_digits (String.◌∷◌ c s) acc =
    let rest = parse_digits s (acc * 10 + (code c - 48)) in
    if leb 48 (code c) && leb (code c) 57 then rest else none

unfoldable pub in_u64 : Option ℕ → Option ℕ
in_u64 none = none
in_u64 (some n) = if ltb n (2 ^ 64) then some n else none

unfoldable pub parse_unsigned : String → Option ℕ
unfolding parse_digits in_u64
parse_unsigned s = if is_blank s then none else in_u64 (parse_digits s 0)

unfoldable pub after_plus : Option String → String → String
after_plus none s = s
after_plus (some rest) s = rest

unfoldable pub parse_u64 : String → Option ℕ
unfolding parse_unsigned after_plus strip_char
parse_u64 s = parse_unsigned (after_plus (strip_char b'+' s) s)

unfoldable pub alarm_at : Option ℕ → Option (Option ℕ)
alarm_at none = none
alarm_at (some secs) = some (some (secs * 10 ^ 9))

-- `parse_pending`: no alarm, an alarm, or a text that is neither.
unfoldable pub parse_pending : String → Option (Option ℕ)
unfolding alarm_at parse_u64 trim
parse_pending text = if is_blank (trim text) then some none else alarm_at (parse_u64 (trim text))

-- `AlarmFile`: the attribute `wakealarm`, and whether a write succeeded.
pub record AlarmFile (F : Type 0) : Type 0 where
  pub read : F → Option String
  pub write : String → F → F × Bool

unfoldable pub pending_of : Option String → Option (Option ℕ)
unfolding parse_pending
pending_of none = none
pending_of (some text) = parse_pending text

-- `.ok().flatten()`.
abbrev pub flatten : Option (Option ℕ) → Option ℕ
flatten none = none
flatten (some at) = at

module _ {F : Type 0} (file : AlarmFile F) where
  -- `pending` of both backends.
  unfoldable pub pending : F → Option (Option ℕ)
  unfolding pending_of
  pending f = pending_of (file.read f)

  -- An armed alarm has to be cleared first.
  unfoldable pub write_epoch : Option ℕ → F → F × Bool
  unfolding decimal
  write_epoch none f = (f, false)
  write_epoch (some epoch) f =
      let (f', cleared) = file.write "0" f in
      if cleared then file.write (decimal epoch) f' else (f', false)

  -- `Wakealarm`; `now` is the time of the call.
  unfoldable pub wakealarm : ℕ → RtcAlarm F
  unfolding write_epoch epoch_for pending
  wakealarm now = record {
    set = λ at f. write_epoch (epoch_for at now) f;
    clear = λ f. file.write "0" f;
    pending = λ f. flatten (pending f);
  }

  run_epoch : (List String → F → F × Bool) → Option ℕ → F → F × Bool
  unfolding decimal
  run_epoch run none f = (f, false)
  run_epoch run (some epoch) f = run ("-m" ∷ ("no" ∷ ("-t" ∷ (decimal epoch ∷ [])))) f

  -- `Rtcwake`; `run` is the program, which never suspends.
  unfoldable pub rtcwake : (List String → F → F × Bool) → ℕ → RtcAlarm F
  unfolding run_epoch epoch_for pending
  rtcwake run now = record {
    set = λ at f. run_epoch run (epoch_for at now) f;
    clear = λ f. run ("-m" ∷ ("disable" ∷ [])) f;
    pending = λ f. flatten (pending f);
  }

  -- `from_config`: none where the device has no attribute.
  unfoldable pub from_config :
      RtcBackend → Bool → (List String → F → F × Bool) → ℕ → Option (RtcAlarm F)
  unfolding wakealarm rtcwake
  from_config backend false run now = none
  from_config RtcBackend.wakealarm true run now = some (wakealarm now)
  from_config RtcBackend.rtcwake true run now = some (rtcwake run now)
