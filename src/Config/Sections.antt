-- ===== src/Config/Sections.antt =====
-- The records of src/config.rs. A `BTreeMap` of modes is its list of entries in key order, and the
-- `toml::Table` of a mode's sysfs writes is its list of entries in declaration order.
use ampered.Prelude.{
  ℕ, ℤ, decimal_ℤ, Bool, true, false, List, [], ◌∷◌, Option, none, some, String, str_eq,
  if◌then◌else◌,
}
use ampered.Config.Durations.{Duration}

pub record General : Type 0 where
  pub log_level : String
  pub socket : String
  pub socket_group : String

pub data IdleFallback : Type 0 where
  off logind : IdleFallback

pub record Backlight : Type 0 where
  pub device : String
  pub dim_percent : ℕ
  pub transition : Duration
  pub min_percent : ℕ

pub data DisplayBackend : Type 0 where
  wlr command nothing : DisplayBackend

pub record Display : Type 0 where
  pub backend : DisplayBackend
  pub off_command : Option String
  pub on_command : Option String

-- Tables, arrays, floats, dates and Booleans are all refused alike.
pub data TomlValue : Type 0 where
  text : String → TomlValue
  integer : ℤ → TomlValue
  other : TomlValue

pub record Mode : Type 0 where
  pub platform_profile : Option String
  pub cpu_governor : Option String
  pub epp : Option String
  pub dim_after : Duration
  pub screen_off_after : Duration
  pub sleep_after : Duration
  pub sysfs : List (String × TomlValue)

pub record AutoMode : Type 0 where
  pub enabled : Bool
  pub on_ac : String
  pub on_battery : String
  pub low_battery_percent : ℕ
  pub on_low_battery : String

pub data SleepMethod : Type 0 where
  suspend hibernate suspend_then_hibernate : SleepMethod

pub record Sleep : Type 0 where
  pub method : SleepMethod
  pub respect_inhibitors : Bool
  pub sleep_retry : Duration

pub data ServerTrigger : Type 0 where
  ac_lost manual : ServerTrigger

pub data CriticalAction : Type 0 where
  hibernate poweroff : CriticalAction

pub data RtcBackend : Type 0 where
  wakealarm rtcwake : RtcBackend

pub record Server : Type 0 where
  pub enabled : Bool
  pub trigger : ServerTrigger
  pub grace_period : Duration
  pub check_interval : Duration
  pub awake_window : Duration
  pub alarm_slack : Duration
  pub battery_critical_percent : ℕ
  pub critical_action : CriticalAction
  pub rtc_backend : RtcBackend
  pub rtc_device : String
  pub resume_hook : Option String

pub record Config : Type 0 where
  pub general : General
  pub idle : IdleFallback
  pub backlight : Backlight
  pub display : Display
  pub modes : List (String × Mode)
  pub auto_mode : AutoMode
  pub sleep : Sleep
  pub server : Server

-- `modes.get(name)`, `modes.contains_key(name)` and `modes.keys()`.
unfoldable pub get_mode : List (String × Mode) → String → Option Mode
get_mode [] name = none
get_mode ((key, mode) ∷ rest) name = if str_eq key name then some mode else get_mode rest name

unfoldable pub contains_key : List (String × Mode) → String → Bool
contains_key [] name = false
contains_key ((key, mode) ∷ rest) name = if str_eq key name then true else contains_key rest name

unfoldable pub keys : List (String × Mode) → List String
keys [] = []
keys ((key, mode) ∷ rest) = key ∷ keys rest

-- `SleepMethod::logind_method`, `needs_hibernate` and its `Display`.
unfoldable pub logind_method : SleepMethod → String
logind_method SleepMethod.suspend = "Suspend"
logind_method SleepMethod.hibernate = "Hibernate"
logind_method SleepMethod.suspend_then_hibernate = "SuspendThenHibernate"

unfoldable pub needs_hibernate : SleepMethod → Bool
needs_hibernate SleepMethod.suspend = false
needs_hibernate SleepMethod.hibernate = true
needs_hibernate SleepMethod.suspend_then_hibernate = true

unfoldable pub method_text : SleepMethod → String
method_text SleepMethod.suspend = "suspend"
method_text SleepMethod.hibernate = "hibernate"
method_text SleepMethod.suspend_then_hibernate = "suspend-then-hibernate"

unfoldable pub scalar_to_string : TomlValue → Option String
scalar_to_string (TomlValue.text s) = some s
scalar_to_string (TomlValue.integer i) = some (decimal_ℤ i)
scalar_to_string TomlValue.other = none

prepend_write : String → Option String → List (String × String) → List (String × String)
prepend_write path none rest = rest
prepend_write path (some value) rest = (path, value) ∷ rest

unfoldable pub scalar_writes : List (String × TomlValue) → List (String × String)
unfolding prepend_write scalar_to_string
scalar_writes [] = []
scalar_writes ((path, value) ∷ rest) =
    prepend_write path (scalar_to_string value) (scalar_writes rest)

-- `Mode::sysfs_writes`: the scalar entries, in declaration order.
unfoldable pub sysfs_writes : Mode → List (String × String)
unfolding scalar_writes
sysfs_writes mode = scalar_writes mode.sysfs
