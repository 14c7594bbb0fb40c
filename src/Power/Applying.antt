-- ===== src/Power/Applying.antt =====
-- Which writes a mode makes, and in which order (src/power/modes.rs).
use ampered.Prelude.{
  ap, ◌∙◌, ◌≡◌, refl, Bool, false, List, [], ◌∷◌, Option, none, some, String, str_eq, if◌then◌else◌,
  any, split_whitespace, Bool-cases, inl, inr,
}
use ampered.Config.Sections.{Mode, sysfs_writes}
use ampered.Power.Modes.{
  ModeSink, write, write_all, choose_profile, platform_profile, write_knobs, cpufreq, apply_profile,
  apply_knob, apply, platform_profile_path, choices_path,
}

-- One value for each of some paths.
abbrev pub each : List String → String → List (String × String)
each [] value = []
each (path ∷ rest) value = (path, value) ∷ each rest value

abbrev pub each_of : List String → Option String → List (String × String)
each_of paths none = []
each_of paths (some value) = each paths value

-- The firmware advertises a profile.
abbrev pub advertises : Option String → String → Bool
advertises none profile = false
advertises (some choices) profile = any (λ choice. str_eq choice profile) (split_whitespace choices)

abbrev pub profile_writes : Option String → Option String → List (String × String)
profile_writes choices none = []
profile_writes choices (some profile) =
    if advertises choices profile then (platform_profile_path, profile) ∷ [] else []

-- What a mode does, part by part: the custom entries; the platform profile, if the firmware advertises
-- it after them; the governor and then the energy preference of every processor that has such a knob
-- by then.
abbrev pub plan : {S : Type 0} → ModeSink S → Mode → S → S
plan sink mode s =
    let s₁ = write_all sink (sysfs_writes mode) s in
    let s₂ = write_all sink (profile_writes (sink.read choices_path s₁) mode.platform_profile) s₁ in
    let s₃ = write_all sink (each_of (sink.cpufreq "scaling_governor" s₂) mode.cpu_governor) s₂ in
    write_all sink (each_of (sink.cpufreq "energy_performance_preference" s₃) mode.epp) s₃

module _ {S : Type 0} (sink : ModeSink S) where
  write_knobs-each :
      (paths : List String) (value : String) (s : S)
      → (write_knobs sink paths value s).0 ≡ write_all sink (each paths value) s
  unfolding write_knobs write_all write
  write_knobs-each [] value s = refl
  write_knobs-each (path ∷ rest) value s = write_knobs-each rest value (sink.write path value s).0

  apply_knob-each :
      (leaf : String) (value : Option String) (s : S)
      → apply_knob sink leaf value s ≡ write_all sink (each_of (sink.cpufreq leaf s) value) s
  unfolding apply_knob cpufreq write_all
  apply_knob-each leaf none s = refl
  apply_knob-each leaf (some value) s = write_knobs-each (sink.cpufreq leaf s) value s

  choose_profile-advertises :
      (choices : Option String) (profile : String) (s : S)
      → choose_profile sink profile choices s
        ≡ write_all sink (profile_writes choices (some profile)) s
  unfolding choose_profile write_all
  choose_profile-advertises none profile s = refl
  choose_profile-advertises (some choices) profile s =
      elim (Bool-cases (any (λ choice. str_eq choice profile) (split_whitespace choices))) [
        | inl fits ↦ rw fits refl
        | inr other ↦ rw other refl
      ]

  apply_profile-writes :
      (profile : Option String) (s : S)
      → apply_profile sink profile s
        ≡ write_all sink (profile_writes (sink.read choices_path s) profile) s
  unfolding apply_profile platform_profile write_all
  apply_profile-writes none s = refl
  apply_profile-writes (some profile) s =
      choose_profile-advertises (sink.read choices_path s) profile s

-- Applying a mode makes exactly the writes of the plan, in its order, whichever of them fail and whatever a
-- write does to the files that are read later: the custom entries, then the platform profile if the
-- firmware advertises it after them, then the governor of every processor that has one by then, then
-- its energy preference.
pub apply-plan :
    {S : Type 0} (sink : ModeSink S) (mode : Mode) (s : S) → apply sink mode s ≡ plan sink mode s
unfolding apply
apply-plan {S} sink mode s =
    let governor : S → S =
      λ t. write_all sink (each_of (sink.cpufreq "scaling_governor" t) mode.cpu_governor) t in
    let preference : S → S =
      λ t. write_all sink (each_of (sink.cpufreq "energy_performance_preference" t) mode.epp) t in
    let s₁ = write_all sink (sysfs_writes mode) s in
    let s₂ = apply_profile sink mode.platform_profile s₁ in
    apply_knob-each sink "energy_performance_preference" mode.epp
      (apply_knob sink "scaling_governor" mode.cpu_governor s₂)
    ∙ ap preference (
        apply_knob-each sink "scaling_governor" mode.cpu_governor s₂
        ∙ ap governor (apply_profile-writes sink mode.platform_profile s₁))
