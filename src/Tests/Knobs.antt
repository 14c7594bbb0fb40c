-- ===== src/Tests/Knobs.antt =====
-- A mode on a machine with two processors (src/power/modes.rs).
use ampered.Prelude.{◌≡◌, refl, false, List, [], ◌∷◌, ◌++◌, some, String, concat}
use ampered.Power.Modes.{ModeSink, apply, sysfs_cpufreq, detect_conflicts}
use ampered.Power.Applying.{plan, apply-plan}
use ampered.Tests.Samples.{powersave}

-- Files that keep what was written to them, and of which every write fails.
abbrev sink : ModeSink (List (String × String))
sink = record {
  write = λ path value s. (s ++ (path, value) ∷ [], false);
  read = λ path s. some "low-power balanced performance";
  cpufreq = λ leaf s. leaf ∷ ("cpu1" ∷ []);
}

apply-plan_example : apply sink powersave [] ≡ plan sink powersave []
apply-plan_example = apply-plan sink powersave []

powersave_writes :
    apply sink powersave []
    ≡ ("/sys/firmware/acpi/platform_profile", "low-power")
      ∷ (("scaling_governor", "powersave") ∷ (("cpu1", "powersave") ∷ []))
unfolding apply
powersave_writes = refl

only_processors :
    sysfs_cpufreq
      (some (
        ("cpufreq", "epp" ∷ [])
        ∷ (("cpu1", "epp" ∷ []) ∷ (("cpu", "epp" ∷ []) ∷ (("cpu0", "epp" ∷ []) ∷ [])))))
      "epp"
    ≡ "/sys/devices/system/cpu/cpu0/cpufreq/epp" ∷ ("/sys/devices/system/cpu/cpu1/cpufreq/epp" ∷ [])
unfolding sysfs_cpufreq concat
only_processors = refl

conflicts :
    detect_conflicts
      (λ unit. false)
      (some (
        ("42", some "swayidle\n")
        ∷ (("self", some "hypridle\n") ∷ (("7", some "swayidle\n") ∷ []))))
    ≡ "conflict:swayidle" ∷ []
unfolding detect_conflicts concat
conflicts = refl
