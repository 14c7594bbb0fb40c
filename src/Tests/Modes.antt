-- ===== src/Tests/Modes.antt =====
-- The theorems on configs and modes at a concrete config (src/config.rs, src/core.rs).
use ampered.Prelude.{◌≡◌, refl, true, none, count, ◌↔◌}
use ampered.Config.Sections.{contains_key}
use ampered.Config.Validate.{
  validate, validate_modes, validate_mode, timeouts, check_limits, enabled_timeouts, check_order,
  check_sysfs, check_auto, check_display, check_server,
}
use ampered.Config.Accepted.{ConfigFits, validate_iff}
use ampered.Core.Types.{State, Event, mode_name}
use ampered.Core.Handle.{handle}
use ampered.Core.KnownMode.{applies_unknown, IsKnown, handle-IsKnown}
use ampered.Tests.Samples.{humantime, config, engine}

validate_iff_example : (validate config ≡ none) ↔ ConfigFits config
validate_iff_example = validate_iff config

config-accepted : validate config ≡ none
unfolding validate validate_modes validate_mode timeouts check_limits enabled_timeouts check_order
    check_sysfs check_auto check_display check_server contains_key
config-accepted = refl

active-IsKnown : IsKnown (engine State.active)
unfolding contains_key mode_name
active-IsKnown = refl

handle-IsKnown_example :
    let (e', commands) = handle humantime (Event.ac_changed true) (engine State.active) in
    (e'.config ≡ config) × IsKnown e' × (count (applies_unknown config.modes) commands ≡ 0)
handle-IsKnown_example =
    handle-IsKnown humantime (Event.ac_changed true) (engine State.active) config-accepted
      active-IsKnown
