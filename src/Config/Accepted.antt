-- ===== src/Config/Accepted.antt =====
-- What `Config::validate` accepts, said without the checks.
use ampered.Prelude.{
  ◌≤◌, ◌<◌, ◌≡◌, refl, ◌↔◌, ◌⊎◌, true, List, [], ◌∷◌, Option, none, String, arith, is_some, All,
}
use ampered.Config.Durations.{Duration, max_timeout, min_check_interval}
use ampered.Config.Sections.{
  Config, Mode, Display, DisplayBackend, Server, AutoMode, TomlValue, contains_key,
  scalar_to_string,
}
use ampered.Config.Validate.{
  Invalid, ◌then_check◌, validate, validate_modes, validate_mode, check_limits, check_order,
  enabled_timeouts, timeouts, check_sysfs, check_auto, check_display, check_server, contains,
  levels, is_absolute,
}

-- Of two timeouts that are both enabled, the first is not later than the second.
abbrev InOrder : Duration → Duration → Type 0
InOrder a b = (a ≡ 0) ⊎ ((b ≡ 0) ⊎ (a ≤ b))

pub record TimeoutsFit (m : Mode) : Type 0 where
  pub dim_limit : m.dim_after ≤ max_timeout
  pub screen_off_limit : m.screen_off_after ≤ max_timeout
  pub sleep_limit : m.sleep_after ≤ max_timeout
  pub dim_first : InOrder m.dim_after m.screen_off_after
  pub sleep_last : InOrder m.screen_off_after m.sleep_after
  pub dim_before_sleep : InOrder m.dim_after m.sleep_after

abbrev pub WriteFits : String × TomlValue → Type 0
WriteFits (path, value) = (is_some (scalar_to_string value) ≡ true) × (is_absolute path ≡ true)

abbrev pub ModeFits : String × Mode → Type 0
ModeFits (name, m) = TimeoutsFit m × All WriteFits m.sysfs

pub check_limits_iff :
    (name : String) (m : Mode)
    → (check_limits name (timeouts m) ≡ none) ↔ (
        (m.dim_after ≤ max_timeout)
        × (m.screen_off_after ≤ max_timeout)
        × (m.sleep_after ≤ max_timeout))
unfolding check_limits timeouts
check_limits_iff name m = (λ h. ground arith, λ h. ground arith)

pub check_order_iff :
    (name : String) (m : Mode)
    → (check_order name (enabled_timeouts (timeouts m)) ≡ none) ↔ (
        InOrder m.dim_after m.screen_off_after
        × InOrder m.screen_off_after m.sleep_after
        × InOrder m.dim_after m.sleep_after)
unfolding check_order enabled_timeouts timeouts
check_order_iff name m = (λ h. ground arith, λ h. ground arith)

check_sysfs_iff :
    (name : String) (writes : List (String × TomlValue))
    → (check_sysfs name writes ≡ none) ↔ All WriteFits writes
unfolding check_sysfs
check_sysfs_iff name [] = (λ h. tt, λ h. refl)
check_sysfs_iff name ((path, value) ∷ rest) = (
  λ h. ground (arith, (check_sysfs_iff name rest).0),
  λ h. ground (arith, (check_sysfs_iff name rest).1 h.1),
)

then_check_iff : (a b : Option Invalid) → ((a then_check b) ≡ none) ↔ ((a ≡ none) × (b ≡ none))
then_check_iff a b = (λ h. ground arith, λ h. ground arith)

validate_mode_iff : (name : String) (m : Mode) → (validate_mode name m ≡ none) ↔ ModeFits (name, m)
unfolding validate_mode
validate_mode_iff name m = (accepted, refused)
  where
    accepted : validate_mode name m ≡ none → ModeFits (name, m)
    accepted h =
        let first =
          (then_check_iff (check_limits name (timeouts m)) (
              check_order name (enabled_timeouts (timeouts m))
              then_check check_sysfs name m.sysfs)).0
            h in
        let second =
          (then_check_iff (check_order name (enabled_timeouts (timeouts m)))
              (check_sysfs name m.sysfs)).0
            first.1 in
        let limits = (check_limits_iff name m).0 first.0 in
        let order = (check_order_iff name m).0 second.0 in
        (
          record {
            dim_limit = limits.0;
            screen_off_limit = limits.1;
            sleep_limit = limits.2;
            dim_first = order.0;
            sleep_last = order.1;
            dim_before_sleep = order.2;
          },
          (check_sysfs_iff name m.sysfs).0 second.1,
        )

    refused : ModeFits (name, m) → validate_mode name m ≡ none
    refused (t, w) =
        rw ((check_limits_iff name m).1 (t.dim_limit, t.screen_off_limit, t.sleep_limit)) (
          rw ((check_order_iff name m).1 (t.dim_first, t.sleep_last, t.dim_before_sleep))
            ((check_sysfs_iff name m.sysfs).1 w))

validate_modes_iff :
    (modes : List (String × Mode)) → (validate_modes modes ≡ none) ↔ All ModeFits modes
unfolding validate_modes
validate_modes_iff [] = (λ h. tt, λ h. refl)
validate_modes_iff ((name, m) ∷ rest) = (
  λ h.
      let parts = (then_check_iff (validate_mode name m) (validate_modes rest)).0 h in
      ((validate_mode_iff name m).0 parts.0, (validate_modes_iff rest).0 parts.1),
  λ h.
      (then_check_iff (validate_mode name m) (validate_modes rest)).1
        ((validate_mode_iff name m).1 h.0, (validate_modes_iff rest).1 h.1),
)

abbrev AutoFits : AutoMode → List (String × Mode) → Type 0
AutoFits auto modes =
    auto.enabled ≡ true
    → (contains_key modes auto.on_ac ≡ true)
      × (contains_key modes auto.on_battery ≡ true)
      × (contains_key modes auto.on_low_battery ≡ true)

check_auto_iff :
    (auto : AutoMode) (modes : List (String × Mode))
    → (check_auto auto modes ≡ none) ↔ AutoFits auto modes
unfolding check_auto
check_auto_iff auto modes = (λ h k. ground arith, λ h. ground arith)

-- The command backend needs both commands; as the fallback of `wlr` they come as a pair.
abbrev DisplayFits : Display → Type 0
DisplayFits d =
    (d.backend ≡ DisplayBackend.command
      → (is_some d.off_command ≡ true) × (is_some d.on_command ≡ true))
    × (d.backend ≡ DisplayBackend.wlr → is_some d.off_command ≡ is_some d.on_command)

check_display_iff : (d : Display) → (check_display d ≡ none) ↔ DisplayFits d
unfolding check_display
check_display_iff d = (λ h. ground arith, λ h. ground arith)

pub record ServerFits (s : Server) : Type 0 where
  pub interval : min_check_interval ≤ s.check_interval
  pub critical : s.battery_critical_percent ≤ 100
  pub slack : s.alarm_slack < s.check_interval

check_server_iff : (s : Server) → (check_server s ≡ none) ↔ ServerFits s
unfolding check_server
check_server_iff s = (λ h. ground arith, λ h. ground arith)

-- A config that the daemon may run with.
pub record ConfigFits (c : Config) : Type 0 where
  pub level : contains levels c.general.log_level ≡ true
  pub modes : All ModeFits c.modes
  pub auto : AutoFits c.auto_mode c.modes
  pub low_battery : c.auto_mode.low_battery_percent ≤ 100
  pub dim : c.backlight.dim_percent ≤ 100
  pub min : c.backlight.min_percent ≤ 100
  pub display : DisplayFits c.display
  pub server : ServerFits c.server

validate_parts :
    (c : Config)
    → (validate c ≡ none) ↔ (
        (contains levels c.general.log_level ≡ true)
        × (validate_modes c.modes ≡ none)
        × (check_auto c.auto_mode c.modes ≡ none)
        × (c.auto_mode.low_battery_percent ≤ 100)
        × (c.backlight.dim_percent ≤ 100)
        × (c.backlight.min_percent ≤ 100)
        × (check_display c.display ≡ none)
        × (check_server c.server ≡ none))
unfolding validate
validate_parts c = (λ h. ground arith, λ h. ground arith)

-- `validate` accepts a config exactly when it fits: a known log level; in every mode timeouts of at
-- most a day in the order dim, screen off, sleep as far as they are enabled, and sysfs writes of
-- scalars to absolute paths; auto-switching, if enabled, among its modes; percentages up to 100;
-- both display commands for the `command` backend, and both or none for `wlr`; a check interval of
-- two minutes at least,
-- and longer than the slack of the alarm.
pub validate_iff : (c : Config) → (validate c ≡ none) ↔ ConfigFits c
validate_iff c = (accepted, refused)
  where
    accepted : validate c ≡ none → ConfigFits c
    accepted h =
        let p = (validate_parts c).0 h in
        record {
          level = p.0;
          modes = (validate_modes_iff c.modes).0 p.1;
          auto = (check_auto_iff c.auto_mode c.modes).0 p.2;
          low_battery = p.3;
          dim = p.4;
          min = p.5;
          display = (check_display_iff c.display).0 p.6;
          server = (check_server_iff c.server).0 p.7;
        }

    refused : ConfigFits c → validate c ≡ none
    refused f = (validate_parts c).1 (
      f.level,
      (validate_modes_iff c.modes).1 f.modes,
      (check_auto_iff c.auto_mode c.modes).1 f.auto,
      f.low_battery,
      f.dim,
      f.min,
      (check_display_iff c.display).1 f.display,
      (check_server_iff c.server).1 f.server,
    )
