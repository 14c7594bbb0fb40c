-- ===== src/Daemon/State.antt =====
-- What `Daemon` of src/main.rs holds, and what it asks of the world. The RTC is an interface, as
-- `RtcAlarm` of src/sleep/rtc.rs is.
use ampered.Prelude.{
  ℕ, Bool, true, false, not, List, [], ◌∷◌, ◌++◌, Option, none, some, String, str_eq, if◌then◌else◌,
  concat, join, split, ◌==◌,
}
use Prim.Native.String.{◌++◌ as append}
use ampered.Config.Durations.{Duration}
use ampered.Config.Sections.{Config}
use ampered.Core.Types.{Engine, State, Phase, state_text, mode_name, mode_source}
use ampered.Ipc.Server.{Server}
use ampered.Timers.Table.{Timers}
use ampered.Backlight.Controller.{Controller, Device}
use ampered.Agent.Link.{AgentLink}
use ampered.Logind.Actor.{LogindHandle}
use ampered.Logind.Idle.{IdleFallback}
use ampered.Logind.Saved.{SavedState, ModeFile}
use ampered.Logind.Files.{Dir}
use ampered.Power.Supply.{Supply}
use ampered.Wake.Planner.{Planner}

-- `RtcAlarm`: whether a call succeeded, and what it left behind.
pub record RtcAlarm (R : Type 0) : Type 0 where
  pub set : ℕ → R → R × Bool
  pub clear : R → R × Bool
  pub pending : R → Option ℕ

-- What the daemon uses of other crates: the text of a duration and of a time, and of the RTC.
pub record Outside (R : Type 0) : Type 0 where
  pub humantime : Duration → String
  pub rfc3339 : ℕ → String
  pub rtc : RtcAlarm R

-- What `Config::load` returns: a config, or the text of its error.
pub data Loaded : Type 0 where
  loaded : Config → Loaded
  rejected : String → Loaded

-- What the world answers while a command is carried out: the time, the config file, the backlight device and
-- the RTC that a discovery finds, the directories of logind's settings, whether the manual mode can
-- be saved.
pub record World (R : Type 0) : Type 0 where
  pub now : ℕ
  pub file : Loaded
  pub device : Option Device
  pub clock : Option R
  pub dirs : List Dir
  pub writable : Bool

-- `Notifier`: whether there is a socket, and what was sent on it.
pub record Notifier : Type 0 where
  pub active : Bool
  pub sent : List String

-- The modes that were applied and the hooks that were started are kept as lists.
pub record Daemon (R : Type 0) : Type 0 where
  pub config : Config
  pub server : Server
  pub timers : Timers
  pub applied : List String
  pub hooks : List String
  pub backlight : Controller
  pub agent : AgentLink
  pub logind : Option LogindHandle
  pub saved : SavedState
  pub mode_file : ModeFile
  pub supply : Supply
  pub fallback : IdleFallback
  pub rtc : Option R
  pub planner : Planner
  pub notifier : Notifier
  pub last_status : String
  pub degraded : List String

-- `Notifier::send`.
unfoldable pub notify : String → Notifier → Notifier
notify message n = if n.active then record n { sent = n.sent ++ message ∷ [] } else n

unfoldable pub without_entry : String → List String → List String
without_entry entry [] = []
without_entry entry (e ∷ rest) =
    let others = without_entry entry rest in if str_eq e entry then others else e ∷ others

-- `Notifier::status`: line breaks are replaced.
unfoldable pub status_message : String → String
unfolding join split
status_message text = append "STATUS=" (join " " (split (λ c. c == 10) text))

status_line : Engine → String
unfolding state_text mode_name mode_source
status_line e = concat (
    state_text e.state
    ∷ (", mode " ∷ (mode_name e.mode ∷ (" (" ∷ (mode_source e.mode ∷ (")" ∷ []))))))

sleeps_long : State → Bool
sleeps_long (State.long_sleep Phase.armed) = true
sleeps_long (State.long_sleep Phase.sleeping) = true
sleeps_long _ = false

unfoldable pub map_time : (ℕ → String) → Option ℕ → Option String
map_time rfc3339 none = none
map_time rfc3339 (some at) = some (rfc3339 at)

module _ {R : Type 0} where
  -- `mark_degraded`.
  unfoldable pub mark_degraded : String → Bool → Daemon R → Daemon R
  mark_degraded subsystem degraded d = record d {
    degraded = without_entry subsystem d.degraded ++ (if degraded then subsystem ∷ [] else []);
  }

  -- `report`: one line for `systemctl status`, if it has changed.
  unfoldable pub report : Engine → Daemon R → Daemon R
  unfolding status_line notify
  report e d =
      if not d.notifier.active
      then d
      else if str_eq (status_line e) d.last_status
      then d
      else record d {
        notifier = notify (status_message (status_line e)) d.notifier;
        last_status = status_line e;
      }

  -- `remember`: what is written to `state.json` before a suspend.
  unfoldable pub remember : (ℕ → String) → Engine → Daemon R → Daemon R
  unfolding sleeps_long map_time state_text mode_name
  remember rfc3339 e d = record d {
    saved = record {
      state = state_text e.state;
      mode = mode_name e.mode;
      reason = if sleeps_long e.state then "long-sleep" else "regular";
      scheduled_wake = map_time rfc3339 d.planner.alarm;
      saved_at = none;
    };
  }
