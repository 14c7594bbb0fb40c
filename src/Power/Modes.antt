-- ===== src/Power/Modes.antt =====
-- Applying a mode, and the programs that would fight over the same knobs (src/power/modes.rs). The files are
-- behind the interface `ModeSink`; what runs on the machine is given by lists.
use Prim.Native.Nat.{Ordering}
use Prim.Native.Char.{code}
use Prim.Native.String
use Prim.Native.String.{◌++◌ as append}
use text.Mathlib.Text.{starts_with}
use ampered.Prelude.{
  ℕ, ◌+◌, Bool, true, false, not, ◌&&◌, List, [], ◌∷◌, ◌++◌, Option, none, some, String, str_eq,
  if◌then◌else◌, leb, is_blank, trim_end, split_whitespace, any, concat,
}
use ampered.Config.Sections.{Mode, sysfs_writes}

abbrev pub platform_profile_path : String
platform_profile_path = "/sys/firmware/acpi/platform_profile"

abbrev pub choices_path : String
choices_path = "/sys/firmware/acpi/platform_profile_choices"

abbrev pub cpu_root : String
cpu_root = "/sys/devices/system/cpu"

-- `ModeSink`: a write and whether it succeeded, a trimmed text, and the knobs of the processors.
pub record ModeSink (S : Type 0) : Type 0 where
  pub write : String → String → S → S × Bool
  pub read : String → S → Option String
  pub cpufreq : String → S → List String

module _ {S : Type 0} (sink : ModeSink S) where
  -- `write`: a failure is logged, and that is all.
  unfoldable pub write : String → String → S → S
  write path value s = (sink.write path value s).0

  unfoldable pub write_all : List (String × String) → S → S
  unfolding write
  write_all [] s = s
  write_all ((path, value) ∷ rest) s = write_all rest (write path value s)

  unfoldable pub choose_profile : String → Option String → S → S
  unfolding write split_whitespace any
  choose_profile profile none s = s
  choose_profile profile (some choices) s =
      if any (λ choice. str_eq choice profile) (split_whitespace choices)
      then write platform_profile_path profile s
      else s

  -- `platform_profile`: only what the firmware advertises.
  unfoldable pub platform_profile : String → S → S
  unfolding choose_profile
  platform_profile profile s = choose_profile profile (sink.read choices_path s) s

  -- The writes to the knobs, with how many failed.
  unfoldable pub write_knobs : List String → String → S → S × ℕ
  write_knobs [] value s = (s, 0)
  write_knobs (path ∷ rest) value s =
      let (s', done) = sink.write path value s in
      let (s'', failed) = write_knobs rest value s' in (s'', if done then failed else failed + 1)

  -- `cpufreq`: one summary, whatever fails.
  unfoldable pub cpufreq : String → String → S → S
  unfolding write_knobs
  cpufreq leaf value s = (write_knobs (sink.cpufreq leaf s) value s).0

  unfoldable pub apply_profile : Option String → S → S
  unfolding platform_profile
  apply_profile none s = s
  apply_profile (some profile) s = platform_profile profile s

  unfoldable pub apply_knob : String → Option String → S → S
  unfolding cpufreq
  apply_knob leaf none s = s
  apply_knob leaf (some value) s = cpufreq leaf value s

  -- `apply`: the custom entries first, then the profile, the governor and the preference.
  unfoldable pub apply : Mode → S → S
  unfolding write_all apply_profile apply_knob sysfs_writes
  apply mode s = apply_knob "energy_performance_preference" mode.epp (
      apply_knob "scaling_governor" mode.cpu_governor
        (apply_profile mode.platform_profile (write_all (sysfs_writes mode) s)))

unfoldable pub all_digits : String → Bool
all_digits (String.[]) = true
all_digits (String.◌∷◌ c s) = leb 48 (code c) && leb (code c) 57 && all_digits s

-- The name without its first three characters.
rest_of : String → String
rest_of (String.◌∷◌ a (String.◌∷◌ b (String.◌∷◌ c s))) = s
rest_of s = ""

-- cpu0, cpu1 and so on, but not cpufreq or cpuidle.
unfoldable pub is_cpu : String → Bool
unfolding all_digits rest_of
is_cpu name = starts_with name "cpu" && all_digits (rest_of name) && not (is_blank (rest_of name))

is_after : Ordering → Bool
is_after Ordering.gt = true
is_after _ = false

unfoldable pub insert_text : String → List String → List String
unfolding is_after
insert_text s [] = s ∷ []
insert_text s (t ∷ rest) =
    let later = insert_text s rest in
    if is_after (String.compare s t) then t ∷ later else s ∷ (t ∷ rest)

unfoldable pub sort : List String → List String
unfolding insert_text
sort [] = []
sort (s ∷ rest) = insert_text s (sort rest)

-- An entry of the directory of the processors: its name, and the knobs that it has.
abbrev pub CpuEntry : Type 0
CpuEntry = String × List String

knobs : List CpuEntry → String → List String
unfolding is_cpu any
knobs [] leaf = []
knobs ((name, leaves) ∷ rest) leaf =
    let others = knobs rest leaf in
    if is_cpu name && any (λ l. str_eq l leaf) leaves
    then concat (cpu_root ∷ ("/" ∷ (name ∷ ("/cpufreq/" ∷ (leaf ∷ []))))) ∷ others
    else others

-- `cpufreq` of `SysfsModeSink`; none where the directory cannot be read.
unfoldable pub sysfs_cpufreq : Option (List CpuEntry) → String → List String
unfolding knobs sort
sysfs_cpufreq none leaf = []
sysfs_cpufreq (some entries) leaf = sort (knobs entries leaf)

abbrev pub conflicting_units : List String
conflicting_units = "power-profiles-daemon.service" ∷ ("tlp.service" ∷ ("tuned.service" ∷ []))

abbrev pub conflicting_processes : List String
conflicting_processes = "swayidle" ∷ ("hypridle" ∷ [])

-- `trim_end_matches` of a text.
unfoldable pub trim_end_text : String → String → String
trim_end_text suffix (String.[]) = ""
trim_end_text suffix (String.◌∷◌ c s) =
    let rest = String.◌∷◌ c (trim_end_text suffix s) in if str_eq rest suffix then "" else rest

unfoldable pub dedup : List String → List String
dedup [] = []
dedup (s ∷ []) = s ∷ []
dedup (s ∷ (t ∷ rest)) = let others = dedup (t ∷ rest) in if str_eq s t then others else s ∷ others

-- An entry of /proc: its name, and its `comm` if that can be read.
abbrev pub ProcEntry : Type 0
ProcEntry = String × Option String

unfoldable pub named_in : List String → List ProcEntry → List String
unfolding all_digits any trim_end
named_in names [] = []
named_in names ((pid, none) ∷ rest) = named_in names rest
named_in names ((pid, some comm) ∷ rest) =
    let others = named_in names rest in
    if all_digits pid && any (λ n. str_eq n (trim_end comm)) names
    then trim_end comm ∷ others
    else others

-- `running_processes`; none where /proc cannot be read.
unfoldable pub running_processes : Option (List ProcEntry) → List String → List String
unfolding named_in sort dedup
running_processes none names = []
running_processes (some entries) names = dedup (sort (named_in names entries))

conflicts_of : List String → List String
conflicts_of [] = []
conflicts_of (name ∷ rest) = concat ("conflict:" ∷ (name ∷ [])) ∷ conflicts_of rest

active_units : (String → Bool) → List String → List String
unfolding trim_end_text
active_units is_active [] = []
active_units is_active (unit ∷ rest) =
    let others = active_units is_active rest in
    if is_active unit then trim_end_text ".service" unit ∷ others else others

-- `detect_conflicts`; `is_active` is the answer of systemctl.
unfoldable pub detect_conflicts : (String → Bool) → Option (List ProcEntry) → List String
unfolding active_units conflicts_of running_processes
detect_conflicts is_active proc =
    conflicts_of (active_units is_active conflicting_units)
    ++ conflicts_of (running_processes proc conflicting_processes)
