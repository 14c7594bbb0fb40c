-- ===== src/Ipc.antt =====
-- The protocol types of src/ipc.rs. The server and its connections are in the child.
pub mod Server
use ampered.Prelude.{ℕ, ◌*◌, Bool, true, false, List, Option, String}
use ampered.Config.Durations.{Duration, from_secs}

abbrev pub RequestId : Type 0
RequestId = ℕ

abbrev pub max_inhibit_ttl : Duration
max_inhibit_ttl = from_secs (24 * 60 * 60)

pub data ScreenState : Type 0 where
  on off : ScreenState

unfoldable pub is_on : ScreenState → Bool
is_on ScreenState.on = true
is_on ScreenState.off = false

pub data InhibitWhat : Type 0 where
  idle sleep : InhibitWhat

unfoldable pub what_text : InhibitWhat → String
what_text InhibitWhat.idle = "idle"
what_text InhibitWhat.sleep = "sleep"

abbrev pub is_idle : InhibitWhat → Bool
is_idle InhibitWhat.idle = true
is_idle InhibitWhat.sleep = false

abbrev pub is_sleep : InhibitWhat → Bool
is_sleep InhibitWhat.idle = false
is_sleep InhibitWhat.sleep = true

pub data Request : Type 0 where
  status : Request
  modes : Request
  mode : String → Request
  dim : Request
  undim : Request
  screen : ScreenState → Request
  sleep : Bool → Request
  long_sleep : Bool → Request
  inhibit : InhibitWhat → String → Duration → Request
  uninhibit : ℕ → Request
  reload : Request
  subscribe : Request
  agent : Request

pub record ModesData : Type 0 where
  pub modes : List String
  pub current : String
  pub source : String

pub record ModeInfo : Type 0 where
  pub name : String
  pub source : String

pub record PowerInfo : Type 0 where
  pub ac : Bool
  pub battery_percent : Option ℕ
  pub low : Bool
  pub batteries : List String

pub record BacklightInfo : Type 0 where
  pub device : Option String
  pub percent : Option ℕ
  pub pre_dim : Option ℕ

pub record StagesInfo : Type 0 where
  pub dim : String
  pub screen_off : String
  pub sleep : String

pub record IdleInfo : Type 0 where
  pub backend : String
  pub connected : Bool
  pub stages : StagesInfo

pub record SleepInfo : Type 0 where
  pub method : String
  pub blocked_by : List String

pub record ServerInfo : Type 0 where
  pub enabled : Bool
  pub phase : String
  pub next_wake : Option String

pub record InhibitorInfo : Type 0 where
  pub id : ℕ
  pub what : String
  pub why : String
  pub expires : Option String

pub record StatusData : Type 0 where
  pub state : String
  pub mode : ModeInfo
  pub power : PowerInfo
  pub backlight : BacklightInfo
  pub idle : IdleInfo
  pub sleep : SleepInfo
  pub server : ServerInfo
  pub inhibitors : List InhibitorInfo
  pub degraded : List String

pub data Response : Type 0 where
  ok : Response
  status : StatusData → Response
  modes : ModesData → Response
  inhibited : ℕ → Response
  error : String → Response

-- `Response::is_ok`.
unfoldable pub response_is_ok : Response → Bool
response_is_ok (Response.error message) = false
response_is_ok _ = true

pub data StateEvent : Type 0 where
  state : String → String → StateEvent
  mode : String → StateEvent
  power : Bool → StateEvent
  long_sleep : String → Option String → StateEvent
