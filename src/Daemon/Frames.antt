-- ===== src/Daemon/Frames.antt =====
-- What a reload (`Daemon::reload` of src/main.rs) leaves alone.
use ampered.Prelude.{ℕ, is_some, true, ◌≡◌, refl, arith, Option}
use ampered.Config.Sections.{Config}
use ampered.Core.Types.{Engine, Event}
use ampered.Core.Handle.{handle}
use ampered.Core.Modes.{set_config}
use ampered.Core.Code.{dispatch_code}
use ampered.Ipc.{RequestId}
use ampered.Agent.Link.{set_display, send}
use ampered.Daemon.State.{Daemon, World, Outside, mark_degraded, report, remember}
use ampered.Wake.Planner.{classify}
use ampered.Daemon.Loop.{before_handle, resumed_in}
use ampered.Daemon.Reload.{
  reload_backlight, reload_display, reload_server, reload_conf, mark_conf, accept,
}

pub set_config-state : (e : Engine) (c : Config) → (set_config e c).0.state ≡ e.state
unfolding dispatch_code set_config
set_config-state e c = ground arith

module _ {R : Type 0} where
  pub reload_backlight-frame :
      (c : Config) (w : World R) (d : Daemon R)
      → let d' = reload_backlight c w d in
        d' ≡ record d { backlight = d'.backlight; degraded = d'.degraded }
  unfolding reload_backlight mark_degraded
  reload_backlight-frame c w d = ground arith

  reload_display-frame :
      (c : Config) (d : Daemon R)
      → let d' = reload_display c d in d' ≡ record d { agent = d'.agent }
  unfolding reload_display
  reload_display-frame c d = ground arith

  pub reload_server-frame :
      (c : Config) (w : World R) (d : Daemon R)
      → let d' = reload_server c w d in d' ≡ record d { rtc = d'.rtc; degraded = d'.degraded }
  unfolding reload_server mark_degraded
  reload_server-frame c w d = ground arith

  pub reload_conf-frame :
      (c : Config) (w : World R) (d : Daemon R)
      → let d' = reload_conf c w d in d' ≡ record d { degraded = d'.degraded }
  unfolding reload_conf mark_conf mark_degraded
  reload_conf-frame c w d = refl

  reload_display-stages :
      (c : Config) (d : Daemon R) → (reload_display c d).agent.stages ≡ d.agent.stages
  unfolding reload_display set_display send
  reload_display-stages c d = ground arith

  -- A config that is accepted changes none of these parts of the daemon.
  pub record IsKept (d d' : Daemon R) : Type 0 where
    pub server : d'.server ≡ d.server
    pub timers : d'.timers ≡ d.timers
    pub logind : d'.logind ≡ d.logind
    pub planner : d'.planner ≡ d.planner
    pub stages : d'.agent.stages ≡ d.agent.stages

  pub accept-IsKept :
      (reply_to : Option RequestId) (c : Config) (w : World R) (d : Daemon R) (e : Engine)
      → IsKept d (accept reply_to c w d e).0
  unfolding accept
  accept-IsKept reply_to c w d e =
      let d₁ = reload_backlight c w d in
      let d₂ = reload_display c d₁ in
      let d₃ = reload_server c w d₂ in
      let f₁ = reload_backlight-frame c w d in
      let f₂ = reload_display-frame c d₁ in
      let f₃ = reload_server-frame c w d₂ in
      let f₄ = reload_conf-frame c w d₃ in
      let same = reload_display-stages c d₁ in
      record { server = cc; timers = cc; logind = cc; planner = cc; stages = cc }

  pub accept-state :
      (reply_to : Option RequestId) (c : Config) (w : World R) (d : Daemon R) (e : Engine)
      → (accept reply_to c w d e).1.state ≡ e.state
  unfolding accept
  accept-state reply_to c w d e = set_config-state e c

  pub report-frame :
      (e : Engine) (d : Daemon R)
      → let d' = report e d in
        d' ≡ record d { notifier = d'.notifier; last_status = d'.last_status }
  unfolding report
  report-frame e d = ground arith

module _ {R : Type 0} (o : Outside R) where
  -- The daemon with which a round takes up the commands of an event.
  abbrev pub opened : ℕ → Event → Daemon R → Engine → Daemon R
  opened now event d e =
      let (d', event') = before_handle o now event d e in
      let e' = (handle o.humantime event' e).0 in report e' (remember o.rfc3339 e' d')

  before_handle-frame :
      (now : ℕ) (event : Event) (d : Daemon R) (e : Engine)
      → let d' = (before_handle o now event d e).0 in
        d' ≡ record d { planner = d'.planner; fallback = d'.fallback; supply = d'.supply }
  unfolding before_handle resumed_in
  before_handle-frame now Event.resumed d e = ground arith
  before_handle-frame now (Event.idle_backend_changed connected) d e = refl
  before_handle-frame now event d e = refl

  pub opened-frame :
      (now : ℕ) (event : Event) (d : Daemon R) (e : Engine)
      → ((opened now event d e).logind ≡ d.logind)
        × ((opened now event d e).server ≡ d.server)
        × ((opened now event d e).timers ≡ d.timers)
        × ((opened now event d e).agent ≡ d.agent)
        × ((opened now event d e).planner ≡ (before_handle o now event d e).0.planner)
  unfolding remember
  opened-frame now event d e =
      let (d', event') = before_handle o now event d e in
      let e' = (handle o.humantime event' e).0 in
      let f = before_handle-frame now event d e in
      let g = report-frame e' (remember o.rfc3339 e' d') in (cc, cc, cc, cc, cc)

  -- An alarm that is armed when a round begins was armed before.
  pub before_handle-alarm :
      (now : ℕ) (event : Event) (d : Daemon R) (e : Engine)
      → is_some (before_handle o now event d e).0.planner.alarm ≡ true
      → is_some d.planner.alarm ≡ true
  unfolding before_handle resumed_in classify
  before_handle-alarm now Event.resumed d e h = ground arith
  before_handle-alarm now (Event.idle_backend_changed connected) d e h = h
  before_handle-alarm now event d e h = h
