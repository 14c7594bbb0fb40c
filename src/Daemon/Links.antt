-- ===== src/Daemon/Links.antt =====
-- What the daemon of src/main.rs does to the agent link, it does by the operations of src/agent.rs.
use ampered.Prelude.{
  ◌≡◌, ◌⊎◌, refl, arith, Bool, Option, none, some, String, Bool-cases, inl, inr, ap, sym, subst,
}
use ampered.Config.Sections.{Config, Display, SleepMethod, Mode, get_mode}
use ampered.Ipc.{RequestId, StateEvent}
use ampered.Core.Types.{Engine, Command}
use ampered.Agent.Link.{AgentLink, same_display}
use ampered.Agent.Resend.{Reach, Step}
use ampered.Logind.Actor.{LogindHandle}
use ampered.Daemon.State.{Daemon, World, Outside, Loaded, notify, remember}
use ampered.Daemon.Reload.{
  reload, reload_with, reload_backlight, reload_display, reload_server, accept, refuse,
}
use ampered.Daemon.Execute.{
  execute, effect, suspend_by, delivered, told, schedule_wake, apply_mode, answer_client, tell,
}
use ampered.Daemon.Rule.{Keeps}
use ampered.Daemon.Frames.{reload_backlight-frame, reload_server-frame, reload_conf-frame}

module _ {R : Type 0} (o : Outside R) where
  -- A link that only the operations of the daemon and of the streams have touched.
  abbrev pub Linked : AgentLink → Type 0
  Linked l = (config : Display) × Reach o.humantime config l

  -- One operation, or none.
  abbrev pub Moves : AgentLink → AgentLink → Type 0
  Moves l l' = (l' ≡ l) ⊎ Step o.humantime l l'

  pub moved-Linked : (l l' : AgentLink) → Moves l l' → Linked l → Linked l'
  moved-Linked l l' (inl same) k = subst Linked (sym same) k
  moved-Linked l l' (inr step) (config, r) = (config, Reach.then_step r step)

  reload_display-Moves : (c : Config) (d : Daemon R) → Moves d.agent (reload_display c d).agent
  unfolding reload_display
  reload_display-Moves c d = elim (Bool-cases (same_display c.display d.config.display)) [
    | inl same ↦ rw same (inl refl)
    | inr other ↦ rw other (inr (Step.display c.display d.agent))
  ]

  accept-agent :
      (to : Option RequestId) (c : Config) (w : World R) (d : Daemon R) (e : Engine)
      → (accept to c w d e).0.agent ≡ (reload_display c (reload_backlight c w d)).agent
  unfolding accept
  accept-agent to c w d e =
      let d₁ = reload_backlight c w d in
      let d₂ = reload_display c d₁ in
      let d₃ = reload_server c w d₂ in
      let f₃ = reload_server-frame c w d₂ in let f₄ = reload_conf-frame c w d₃ in cc

  accept-Moves :
      (to : Option RequestId) (c : Config) (w : World R) (d : Daemon R) (e : Engine)
      → Moves d.agent (accept to c w d e).0.agent
  accept-Moves to c w d e =
      let d₁ = reload_backlight c w d in
      let first : d₁.agent ≡ d.agent = ap (λ d'. d'.agent) (reload_backlight-frame c w d) in
      subst (Moves d.agent) (sym (accept-agent to c w d e))
        (subst (λ l. Moves l (reload_display c d₁).agent) first (reload_display-Moves c d₁))

  reload-Moves :
      (to : Option RequestId) (file : Loaded) (w : World R) (d : Daemon R) (e : Engine)
      → Moves d.agent (reload_with file to w d e).0.agent
  unfolding reload_with refuse
  reload-Moves none (Loaded.rejected error) w d e = inl refl
  reload-Moves (some id) (Loaded.rejected error) w d e = inl refl
  reload-Moves to (Loaded.loaded c) w d e = accept-Moves to c w d e

  suspend_by-agent :
      (logind : Option LogindHandle) (method : SleepMethod) (force : Bool) (d : Daemon R)
      (e : Engine)
      → (suspend_by o logind method force d e).0.agent ≡ d.agent
  unfolding suspend_by delivered told
  suspend_by-agent none method force d e = refl
  suspend_by-agent (some logind) method force d e = ground arith

  apply_mode-agent :
      (name : String) (mode : Option Mode) (d : Daemon R)
      → (apply_mode o name mode d).agent ≡ d.agent
  unfolding apply_mode
  apply_mode-agent name none d = refl
  apply_mode-agent name (some mode) d = refl

  tell-agent :
      (w : World R) (event : StateEvent) (d : Daemon R) (e : Engine)
      → (tell o w event d e).agent ≡ d.agent
  unfolding tell
  tell-agent w event d e = ground arith

  execute-Moves :
      (w : World R) (c : Command) (d : Daemon R) (e : Engine)
      → Moves d.agent (execute o w c d e).0.agent
  unfolding execute effect schedule_wake told reload remember answer_client
  execute-Moves w (Command.suspend method force) d e =
      inl (suspend_by-agent d.logind method force d e)
  execute-Moves w (Command.reload to) d e =
      let d' : Daemon R = record d { notifier = notify "RELOADING=1" d.notifier } in
      reload-Moves to w.file w d' e
  execute-Moves w (Command.replace_idle_stages stages) d e = inr (Step.stages stages d.agent)
  execute-Moves w (Command.screen on) d e = inr (Step.screen on d.agent)
  execute-Moves w (Command.apply_mode name) d e =
      inl (apply_mode-agent name (get_mode d.config.modes name) d)
  execute-Moves w (Command.broadcast event) d e = inl (tell-agent w event d e)
  execute-Moves w _ d e = inl refl

  -- Every command moves the link by an operation.
  pub execute-Linked : Keeps o (λ queue d e. Linked d.agent)
  execute-Linked w c rest d e k =
      moved-Linked d.agent (execute o w c d e).0.agent (execute-Moves w c d e) k
