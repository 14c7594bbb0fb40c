-- ===== src/Tests/Login.antt =====
-- The side of logind at concrete files, requests and readings (src/logind_conf.rs, src/logind.rs).
use ampered.Prelude.{◌≡◌, refl, ◌↔◌, Bool, true, false, none, some, trim, List, [], ◌∷◌, String}
use ampered.Logind.Settings.{
  check, report, from_keys, effective_keys, get, assign_all, assign_files, assign, insert, remove,
  lid_actions, action, is_empty,
}
use ampered.Config.Sections.{SleepMethod}
use ampered.Config.Durations.{from_secs}
use ampered.Logind.Files.{Dir, find_file, drop_ins}
use ampered.Logind.Shadowing.{first_named, find-drop_ins}
use ampered.Logind.Actor.{Request, Manager, Listed, serve}
use ampered.Logind.Executor.{Served, serve-Served}
use ampered.Logind.Idle.{
  Sample, idle_hint_poll, engaged, Alternates, reported, last_decided, idle_hint_poll-Alternates,
}
use ampered.Logind.Saved.{load_manual_mode, save_manual_mode, load-save_manual_mode}
use ampered.Logind.Effective.{StaysOut, check_iff}

-- The main file, and a drop-in that resets the lid to its default.
abbrev files : List (List (String × String))
files =
    (("HandleLidSwitch", "ignore") ∷ (("IdleAction", "ignore") ∷ []))
    ∷ ((("HandleLidSwitch", "") ∷ []) ∷ [])

check_iff_example : (check true files ≡ []) ↔ StaysOut true files
check_iff_example = check_iff true files

lid_reported : check true files ≡ "lid-switch" ∷ []
unfolding check report from_keys effective_keys get assign_all assign_files assign insert remove
    lid_actions action is_empty
lid_reported = refl

-- The directory of the administrator shadows that of the vendor.
abbrev administrator : Dir
administrator = record {
  main = some (some "[Login]\n");
  drop_ins = ("50-lid.conf", some "[Login]\nHandleLidSwitch=ignore\n") ∷ [];
}

abbrev vendor : Dir
vendor = record { main = none; drop_ins = ("50-lid.conf", some "") ∷ (("README", some "") ∷ []) }

abbrev dirs : List Dir
dirs = administrator ∷ (vendor ∷ [])

find-drop_ins_example : find_file "50-lid.conf" (drop_ins dirs []) ≡ first_named "50-lid.conf" dirs
find-drop_ins_example = find-drop_ins "50-lid.conf" dirs

-- A package manager blocks the sleep.
abbrev manager : Manager
manager = record {
  inhibitors = some (Listed.listed "shutdown:sleep" "pacman" "update" "block" ∷ []);
  accepts = λ method. true;
  accepts_power_off = true;
}

serve-Served_example :
    Served manager SleepMethod.suspend false true
      (serve manager (Request.sleep SleepMethod.suspend false true))
serve-Served_example = serve-Served manager SleepMethod.suspend false true

-- The session is idle for half an hour, and then it is not.
abbrev sample : Bool → Sample
sample hint = record {
  control = record { enabled = true; compositor = false; sleep_after = some (from_secs 600) };
  reading = some (record { hint = hint; since = 1; now = from_secs 1800 });
}

abbrev readings : List Sample
readings = sample true ∷ (sample true ∷ (sample false ∷ []))

idle_hint_poll-Alternates_example :
    Alternates false (idle_hint_poll readings false)
    × (reported (idle_hint_poll readings false) false ≡ last_decided readings false)
unfolding engaged
idle_hint_poll-Alternates_example =
    idle_hint_poll-Alternates readings false (refl, (refl, (refl, tt)))

trimmed : trim "powersave" ≡ "powersave"
unfolding trim
trimmed = refl

load-save_manual_mode_example :
    (load_manual_mode (save_manual_mode true (some "powersave") none) ≡ some "powersave")
    × (load_manual_mode (save_manual_mode true none none) ≡ none)
load-save_manual_mode_example = load-save_manual_mode "powersave" none trimmed refl
