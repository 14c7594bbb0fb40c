-- ===== src/Tests/Clock.antt =====
-- The RTC alarm on an attribute like the kernel's (src/sleep/rtc.rs).
use Prim.Native.String.{◌++◌ as append}
use ampered.Prelude.{
  ◌+◌, ◌*◌, ◌/◌, ◌^◌, ◌<◌, ◌≤◌, ◌≡◌, refl, arith, Bool, true, false, Option, none, some, String,
  str_eq, if◌then◌else◌,
}
use ampered.Config.Durations.{from_secs}
use ampered.Wake.Rtc.{AlarmFile, wakealarm, min_horizon}
use ampered.Wake.Decimals.{decimal-ne_zero}
use ampered.Wake.Alarm.{IsAttribute, set-pending}

-- An armed attribute refuses another alarm until it is cleared.
abbrev shown : Option String → Option String
shown none = some ""
shown (some text) = some (append text "\n")

abbrev taken : String → Option String → Option String × Bool
taken text none = (some text, true)
taken text (some before) = (some before, false)

abbrev kernel : AlarmFile (Option String)
kernel = record {
  read = shown;
  write = λ text f. if str_eq text "0" then (none, true) else taken text f;
}

kernel-IsAttribute : IsAttribute kernel (from_secs 1000)
kernel-IsAttribute = record {
  clears = λ f. refl;
  takes = λ f epoch ahead fits. rw (decimal-ne_zero epoch (omega arith) fits) (refl, refl);
}

set-pending_example :
    let alarm = wakealarm kernel (from_secs 1000) in
    let s = alarm.set (from_secs 2800) (some "1500") in
    (from_secs 1000 + min_horizon ≤ from_secs 2800
      → (s.1 ≡ true) × (alarm.pending s.0 ≡ some (from_secs 2800 / 10 ^ 9 * 10 ^ 9)))
    × (from_secs 2800 < from_secs 1000 + min_horizon → s ≡ (some "1500", false))
set-pending_example =
    set-pending kernel (from_secs 2800) (from_secs 1000) (some "1500") kernel-IsAttribute
      (omega arith)
