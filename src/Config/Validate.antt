-- ===== src/Config/Validate.antt =====
-- `Config::validate` and `Mode::validate` (src/config.rs). The text of a refusal is a constructor
-- with the values that the message prints.
use text.Mathlib.Text.{starts_with}
use ampered.Prelude.{
  Bool, true, false, not, ◌&&◌, List, [], ◌∷◌, Option, none, some, String, str_eq, if◌then◌else◌,
  ltb, leb, is_some,
}
use ampered.Config.Durations.{Duration, is_zero, max_timeout, min_check_interval}
use ampered.Config.Sections.{
  Config, Mode, Display, DisplayBackend, AutoMode, Server, TomlValue, contains_key,
  scalar_to_string,
}

pub data Invalid : Type 0 where
  log_level : String → Invalid
  timeout_exceeds : String → String → Invalid
  timeout_order : String → String → Duration → String → Duration → Invalid
  sysfs_value : String → String → Invalid
  sysfs_path : String → String → Invalid
  no_such_mode : String → String → Invalid
  low_battery_percent : Invalid
  dim_percent : Invalid
  min_percent : Invalid
  display_command_pair : Invalid
  display_fallback_pair : Invalid
  check_interval : Invalid
  battery_critical_percent : Invalid
  alarm_slack : Invalid

-- `Result<(), ConfigError>`, `None` being `Ok(())`, and `?` between two of them.
infixr 5 ◌then_check◌
abbrev pub ◌then_check◌ : Option Invalid → Option Invalid → Option Invalid
none then_check k = k
some e then_check k = some e

abbrev pub refuse_if : Bool → Invalid → Option Invalid
refuse_if true e = some e
refuse_if false e = none

abbrev pub contains : List String → String → Bool
contains [] s = false
contains (x ∷ xs) s = if str_eq x s then true else contains xs s

abbrev pub levels : List String
levels = "error" ∷ "warn" ∷ "info" ∷ "debug" ∷ "trace" ∷ []

abbrev pub Timeout : Type 0
Timeout = String × Duration

unfoldable pub timeouts : Mode → List Timeout
timeouts mode =
    ("dim_after", mode.dim_after)
    ∷ (("screen_off_after", mode.screen_off_after) ∷ (("sleep_after", mode.sleep_after) ∷ []))

unfoldable pub check_limits : String → List Timeout → Option Invalid
check_limits name [] = none
check_limits name ((key, value) ∷ rest) =
    refuse_if (ltb max_timeout value) (Invalid.timeout_exceeds name key)
    then_check check_limits name rest

-- Only enabled timeouts take part in the ordering.
unfoldable pub enabled_timeouts : List Timeout → List Timeout
enabled_timeouts [] = []
enabled_timeouts ((key, value) ∷ rest) =
    if is_zero value then enabled_timeouts rest else (key, value) ∷ enabled_timeouts rest

-- The loop over `windows(2)`.
unfoldable pub check_order : String → List Timeout → Option Invalid
check_order name [] = none
check_order name (a ∷ []) = none
check_order name (a ∷ (b ∷ rest)) =
    refuse_if (ltb b.1 a.1) (Invalid.timeout_order name a.0 a.1 b.0 b.1)
    then_check check_order name (b ∷ rest)

-- `Path::new(path).is_absolute()`.
abbrev pub is_absolute : String → Bool
is_absolute path = starts_with path "/"

unfoldable pub check_sysfs : String → List (String × TomlValue) → Option Invalid
unfolding scalar_to_string
check_sysfs name [] = none
check_sysfs name ((path, value) ∷ rest) =
    refuse_if (not (is_some (scalar_to_string value))) (Invalid.sysfs_value name path)
    then_check refuse_if (not (is_absolute path)) (Invalid.sysfs_path name path)
    then_check check_sysfs name rest

unfoldable pub validate_mode : String → Mode → Option Invalid
validate_mode name mode =
    check_limits name (timeouts mode)
    then_check check_order name (enabled_timeouts (timeouts mode))
    then_check check_sysfs name mode.sysfs

unfoldable pub validate_modes : List (String × Mode) → Option Invalid
validate_modes [] = none
validate_modes ((name, mode) ∷ rest) = validate_mode name mode then_check validate_modes rest

-- The names that auto-switching uses must be modes.
unfoldable pub check_auto : AutoMode → List (String × Mode) → Option Invalid
check_auto auto modes =
    if auto.enabled
    then refuse_if (not (contains_key modes auto.on_ac)) (Invalid.no_such_mode "on_ac" auto.on_ac)
      then_check refuse_if (not (contains_key modes auto.on_battery))
          (Invalid.no_such_mode "on_battery" auto.on_battery)
      then_check refuse_if (not (contains_key modes auto.on_low_battery))
          (Invalid.no_such_mode "on_low_battery" auto.on_low_battery)
    else none

xor_some : Option String → Option String → Bool
xor_some none none = false
xor_some (some _) (some _) = false
xor_some _ _ = true

check_display_backend : DisplayBackend → Option String → Option String → Option Invalid
unfolding xor_some
check_display_backend DisplayBackend.command off on =
    refuse_if (not (is_some off && is_some on)) Invalid.display_command_pair
check_display_backend DisplayBackend.wlr off on =
    refuse_if (xor_some off on) Invalid.display_fallback_pair
check_display_backend DisplayBackend.nothing off on = none

unfoldable pub check_display : Display → Option Invalid
unfolding check_display_backend
check_display d = check_display_backend d.backend d.off_command d.on_command

unfoldable pub check_server : Server → Option Invalid
check_server server =
    refuse_if (ltb server.check_interval min_check_interval) Invalid.check_interval
    then_check refuse_if (ltb 100 server.battery_critical_percent) Invalid.battery_critical_percent
    then_check refuse_if (leb server.check_interval server.alarm_slack) Invalid.alarm_slack

-- `Config::validate`: `none` is a config that the daemon accepts.
unfoldable pub validate : Config → Option Invalid
validate c =
    refuse_if (not (contains levels c.general.log_level)) (Invalid.log_level c.general.log_level)
    then_check validate_modes c.modes
    then_check check_auto c.auto_mode c.modes
    then_check refuse_if (ltb 100 c.auto_mode.low_battery_percent) Invalid.low_battery_percent
    then_check refuse_if (ltb 100 c.backlight.dim_percent) Invalid.dim_percent
    then_check refuse_if (ltb 100 c.backlight.min_percent) Invalid.min_percent
    then_check check_display c.display
    then_check check_server c.server
