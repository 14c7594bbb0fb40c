-- ===== src/Daemon/Reload.antt =====
-- `Daemon::reload` of src/main.rs.
use ampered.Prelude.{
  Bool, true, false, not, ◌&&◌, List, [], ◌∷◌, ◌++◌, Option, none, some, String, str_eq,
  if◌then◌else◌, is_some, same, any, ◌==◌,
}
use ampered.Config.Sections.{
  Config, Backlight, Server, ServerTrigger, CriticalAction, RtcBackend, IdleFallback,
}
use ampered.Core.Types.{Engine, Command}
use ampered.Core.Modes.{set_config}
use ampered.Ipc.{RequestId, Response}
use ampered.Ipc.Server.{reply}
use ampered.Backlight.Controller.{Controller, reconfigure}
use ampered.Agent.Link.{set_display, same_display, same_command}
use ampered.Logind.Files.{check_dirs}
use ampered.Daemon.State.{Daemon, World, Loaded, mark_degraded, notify}

-- The derived `==` of two sections.
unfoldable pub same_backlight : Backlight → Backlight → Bool
same_backlight a b =
    str_eq a.device b.device
    && (a.dim_percent == b.dim_percent)
    && (a.transition == b.transition)
    && (a.min_percent == b.min_percent)

same_trigger : ServerTrigger → ServerTrigger → Bool
same_trigger ServerTrigger.ac_lost ServerTrigger.ac_lost = true
same_trigger ServerTrigger.manual ServerTrigger.manual = true
same_trigger _ _ = false

same_action : CriticalAction → CriticalAction → Bool
same_action CriticalAction.hibernate CriticalAction.hibernate = true
same_action CriticalAction.poweroff CriticalAction.poweroff = true
same_action _ _ = false

same_rtc : RtcBackend → RtcBackend → Bool
same_rtc RtcBackend.wakealarm RtcBackend.wakealarm = true
same_rtc RtcBackend.rtcwake RtcBackend.rtcwake = true
same_rtc _ _ = false

unfoldable pub same_server : Server → Server → Bool
unfolding same_trigger same_action same_rtc
same_server a b =
    same a.enabled b.enabled
    && same_trigger a.trigger b.trigger
    && (a.grace_period == b.grace_period)
    && (a.check_interval == b.check_interval)
    && (a.awake_window == b.awake_window)
    && (a.alarm_slack == b.alarm_slack)
    && (a.battery_critical_percent == b.battery_critical_percent)
    && same_action a.critical_action b.critical_action
    && same_rtc a.rtc_backend b.rtc_backend
    && str_eq a.rtc_device b.rtc_device
    && same_command a.resume_hook b.resume_hook

-- `Controller::is_available`.
unfoldable pub is_available : Controller → Bool
is_available c = is_some c.sink

unfoldable pub uses_logind : IdleFallback → Bool
uses_logind IdleFallback.off = false
uses_logind IdleFallback.logind = true

unfoldable pub answer : Option RequestId → Response → List Command
answer none response = []
answer (some id) response = Command.reply id response ∷ []

module _ {R : Type 0} where
  -- `rtc_for`: the RTC is only touched when the server cycle can use it.
  unfoldable pub rtc_for : Config → World R → Option R
  rtc_for config w = if config.server.enabled then w.clock else none

  -- The parts of a reload, each for one section that changed.
  unfoldable pub reload_backlight : Config → World R → Daemon R → Daemon R
  unfolding same_backlight is_available mark_degraded
  reload_backlight config w d =
      if same_backlight config.backlight d.config.backlight
      then d
      else let backlight = reconfigure config.backlight w.device d.backlight in
        mark_degraded "backlight" (not (is_available backlight))
          (record d { backlight = backlight })

  unfoldable pub reload_display : Config → Daemon R → Daemon R
  reload_display config d =
      if same_display config.display d.config.display
      then d
      else record d { agent = set_display config.display d.agent }

  unfoldable pub reload_server : Config → World R → Daemon R → Daemon R
  unfolding same_server rtc_for mark_degraded
  reload_server config w d =
      if same_server config.server d.config.server
      then d
      else let rtc = rtc_for config w in
        mark_degraded "rtc" (config.server.enabled && not (is_some rtc)) (record d { rtc = rtc })

  unfoldable pub mark_conf : List String → String → Daemon R → Daemon R
  unfolding mark_degraded
  mark_conf found entry d = mark_degraded entry (any (λ f. str_eq f entry) found) d

  unfoldable pub reload_conf : Config → World R → Daemon R → Daemon R
  unfolding mark_conf check_dirs
  reload_conf config w d =
      let found = check_dirs w.dirs config.server.enabled in
      mark_conf found "idle-action" (mark_conf found "lid-switch" d)

  unfoldable pub accept :
      Option RequestId → Config → World R → Daemon R → Engine → Daemon R × Engine × List Command
  unfolding reload_backlight reload_display reload_server reload_conf uses_logind set_config notify
      answer
  accept reply_to config w d e =
      let d' =
        reload_conf config w
          (reload_server config w (reload_display config (reload_backlight config w d))) in
      let (e', commands) = set_config e config in
      (
        record d' {
          config = config;
          fallback = record d'.fallback { enabled = uses_logind config.idle };
          notifier = notify "READY=1" d'.notifier;
        },
        e',
        commands ++ answer reply_to Response.ok,
      )

  unfoldable pub refuse : Option RequestId → String → Daemon R → Daemon R
  refuse none error d = d
  refuse (some id) error d = record d { server = reply id (Response.error error) d.server }

  unfoldable pub reload_with :
      Loaded → Option RequestId → World R → Daemon R → Engine → Daemon R × Engine × List Command
  unfolding accept refuse notify
  reload_with (Loaded.rejected error) reply_to w d e =
      (refuse reply_to error (record d { notifier = notify "READY=1" d.notifier }), e, [])
  reload_with (Loaded.loaded config) reply_to w d e = accept reply_to config w d e

  -- `reload`: a rejected config leaves everything as it was.
  unfoldable pub reload :
      Option RequestId → World R → Daemon R → Engine → Daemon R × Engine × List Command
  unfolding reload_with notify
  reload reply_to w d e =
      reload_with w.file reply_to w (record d { notifier = notify "RELOADING=1" d.notifier }) e
