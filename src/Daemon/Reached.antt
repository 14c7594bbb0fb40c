-- ===== src/Daemon/Reached.antt =====
-- The daemon of src/main.rs over its whole life: the start, rounds of the loop, and what happens between
-- two rounds.
use ampered.Prelude.{
  ap, sym, subst, ◌∙◌, ℕ, ◌≡◌, refl, arith, Bool, true, false, List, [], Option, none, some,
  is_some,
}
use ampered.Config.Sections.{Config, Display}
use ampered.Core.Types.{Engine, Command, Event, TimerId, PowerSnapshot}
use ampered.Core.Handle.{handle}
use ampered.Core.Modes.{stages, is_past_grace}
use ampered.Core.Machine.{Machine, perform, fire, set_timer}
use ampered.Core.Screen.{power_back_in_grace}
use ampered.Core.IdleStages.{is_shutdown}
use ampered.Core.Life.{Life, Life-Agree}
use ampered.Timers.Table
use ampered.Timers.Once.{fired-without}
use ampered.Logind.Saved.{SavedState, ModeFile}
use ampered.Timers.Table.{Timers, without}
use ampered.Daemon.State.{Daemon, World, Outside}
use ampered.Daemon.Loop.{Drained, drain, round, before_handle, boot, resumed_in}
use ampered.Daemon.Rule.{WhenIdle, drain-WhenIdle}
use ampered.Daemon.Frames.{opened, opened-frame, before_handle-alarm}
use ampered.Daemon.Simulates.{IsSimulated, kept-IsSimulated, cancel-IsSimulated}
use ampered.Agent.Link
use ampered.Agent.Link.{Stream, stages_op}
use ampered.Agent.Resend.{Reach, view, blank, connected-knows}
use ampered.Daemon.Links.{Linked, Moves, moved-Linked, execute-Linked}
use ampered.Daemon.Booted.{fresh, boot-Life}
use ampered.Daemon.Living.{Lives, execute-Lives}
use ampered.Core.Deadlines.{is_grace, is_checking}
use ampered.Daemon.Simulates.{runs}

module _ {R : Type 0} (o : Outside R) where
  abbrev is_fire : Event → Bool
  is_fire (Event.timer id) = true
  is_fire _ = false

  fire-inert : (event : Event) (m : Machine) → is_fire event ≡ false → fire event m ≡ m
  fire-inert event m h = ground arith

  -- What the loop makes of an event concerns neither timers nor power, and is no shutdown.
  before_handle-event :
      (now : ℕ) (event : Event) (d : Daemon R) (e : Engine)
      → let event' = (before_handle o now event d e).1 in
        (is_fire event' ≡ is_fire event)
        × (power_back_in_grace event' e ≡ power_back_in_grace event e)
        × (is_shutdown event' ≡ is_shutdown event)
  unfolding before_handle resumed_in
  before_handle-event now Event.resumed d e = ground arith
  before_handle-event now (Event.idle_backend_changed connected) d e = (refl, refl, refl)
  before_handle-event now event d e = (refl, refl, refl)

  -- A daemon as src/main.rs makes it: no timer, no alarm of its own, no agent and no stages.
  pub record IsNew (d : Daemon R) : Type 0 where
    pub no_timer : d.timers.running ≡ []
    pub no_alarm : d.planner.alarm ≡ none
    pub display : Display
    pub unlinked : d.agent ≡ Link.new display

  -- The daemons, with their engines, that wait for an event: after the start, after a round, or after
  -- something that leaves the timers, the alarm and the stages alone (a client, the power supply, a fade,
  -- a fire that comes in, the executor of the requests to logind, or an agent: one that registers, leaves
  -- or sends an event). Power that comes back in a grace period and the request to stop are left out.
  pub data Reached : Daemon R → Engine → Type 0 where
    started :
        (config : Config) (power : PowerSnapshot) (hibernate : Bool) (file : ModeFile)
        (writable : Bool) (saved : Option SavedState) (fuel : ℕ) (worlds : ℕ → World R)
        {d d' : Daemon R} {e' : Engine}
        → IsNew d
        → (let b = boot o.humantime config power hibernate file writable saved in
            drain o fuel worlds 0 b.0.1 d b.0.0 ≡ Drained.idle d' e')
        → Reached d' e'
    aside :
        {d d' : Daemon R} {e : Engine}
        → Reached d e
        → d'.timers.running ≡ d.timers.running
        → d'.planner ≡ d.planner
        → d'.agent.stages ≡ d.agent.stages
        → Moves o d.agent d'.agent
        → Reached d' e
    fired :
        (id : TimerId) (now fuel : ℕ) (worlds : ℕ → World R) {d d' : Daemon R} {e e' : Engine}
        → Reached d e
        → (Table.fired d.timers).0 ≡ some id
        → round o fuel worlds now
            (Event.timer id)
            (record d { timers = (Table.fired d.timers).1 })
            e
          ≡ Drained.idle d' e'
        → Reached d' e'
    handled :
        (event : Event) (now fuel : ℕ) (worlds : ℕ → World R) {d d' : Daemon R} {e e' : Engine}
        → Reached d e
        → is_fire event ≡ false
        → power_back_in_grace event e ≡ false
        → is_shutdown event ≡ false
        → round o fuel worlds now event d e ≡ Drained.idle d' e'
        → Reached d' e'

  abbrev LivesIdle : Daemon R → Engine → Type 0
  LivesIdle = Lives o []

  drained-Lives :
      (fuel : ℕ) (worlds : ℕ → World R) (queue : List Command) (d d' : Daemon R) (e e' : Engine)
      → Lives o queue d e
      → drain o fuel worlds 0 queue d e ≡ Drained.idle d' e'
      → Lives o [] d' e'
  drained-Lives fuel worlds queue d d' e e' l done =
      subst (WhenIdle o (Lives o [])) done
        (drain-WhenIdle o (Lives o) (execute-Lives o) fuel worlds 0 queue d e l)

  new-IsSimulated : (d : Daemon R) → IsNew d → IsSimulated d fresh
  unfolding runs Table.lookup Link.new
  new-IsSimulated d n = record {
    grace = rw n.no_timer refl;
    window = rw n.no_timer refl;
    retry = rw n.no_timer refl;
    alarm = λ h. absurd (grind (arith, n.no_alarm));
    stages = ap (λ a. a.stages) n.unlinked;
  }

  opened-IsSimulated :
      (event : Event) (now : ℕ) (d : Daemon R) (e : Engine) (m : Machine)
      → IsSimulated d m
      → IsSimulated (opened o now event d e) m
  opened-IsSimulated event now d e m s =
      let f = opened-frame o now event d e in
      kept-IsSimulated d (opened o now event d e) m (ap (λ t. t.running) f.2)
        (λ h. before_handle-alarm o now event d e (sym (ap (λ p. is_some p.alarm) f.4) ∙ h))
        (ap (λ a. a.stages) f.3) s

  event-Lives :
      (event : Event) (now : ℕ) (d : Daemon R) (e : Engine)
      → is_fire event ≡ false
      → power_back_in_grace event e ≡ false
      → is_shutdown event ≡ false
      → Lives o [] d e
      → let (e', commands) = handle o.humantime (before_handle o now event d e).1 e in
        Lives o commands (opened o now event d e) e'
  event-Lives event now d e t q p (m, s, l) =
      let event' = (before_handle o now event d e).1 in
      let same = before_handle-event now event d e in
      let (e', commands) = handle o.humantime event' e in
      (
        m,
        opened-IsSimulated event now d e m s,
        subst (λ m'. Life o.humantime e' (perform commands m')) (fire-inert event' m (same.0 ∙ t))
            (Life.event event' l (same.1 ∙ q) (same.2 ∙ p)),
      )

  fired-Lives :
      (id : TimerId) (now : ℕ) (d : Daemon R) (e : Engine)
      → (Table.fired d.timers).0 ≡ some id
      → Lives o [] d e
      → let event = Event.timer id in
        let d' : Daemon R = record d { timers = (Table.fired d.timers).1 } in
        let (e', commands) = handle o.humantime event e in
        Lives o commands (opened o now event d' e) e'
  fired-Lives id now d e f (m, s, l) =
      let event = Event.timer id in
      let d' : Daemon R = record d { timers = (Table.fired d.timers).1 } in
      let s' =
        cancel-IsSimulated o id d (Table.fired d.timers).1 m (fired-without id d.timers f) s in
      (
        set_timer id false m,
        opened-IsSimulated event now d' e (set_timer id false m) s',
        subst
            (λ m'.
              Life o.humantime (handle o.humantime event e).0
                (perform (handle o.humantime event e).1 m'))
            refl (Life.event event l refl refl),
      )

  Reached-Lives : {d : Daemon R} {e : Engine} → Reached d e → Lives o [] d e
  unfolding round
  Reached-Lives
        (Reached.started config power hibernate file writable saved fuel worlds {d} {d'} {e'} n
          done) =
      let b = boot o.humantime config power hibernate file writable saved in
      drained-Lives fuel worlds b.0.1 d d' b.0.0 e'
        (fresh, new-IsSimulated d n, boot-Life o config power hibernate file writable saved) done
  Reached-Lives (Reached.aside {d} {d'} {e} r t p a moved) =
      let (m, s, l) = Reached-Lives r in
      (m, kept-IsSimulated d d' m t (λ h. ap (λ p'. is_some p'.alarm) (sym p) ∙ h) a s, l)
  Reached-Lives (Reached.fired id now fuel worlds {d} {d'} {e} {e'} r f done) =
      let event = Event.timer id in
      let d₁ : Daemon R = record d { timers = (Table.fired d.timers).1 } in
      let (e₁, commands) = handle o.humantime event e in
      drained-Lives fuel worlds commands (opened o now event d₁ e) d' e₁ e'
        (fired-Lives id now d e f (Reached-Lives r)) done
  Reached-Lives (Reached.handled event now fuel worlds {d} {d'} {e} {e'} r t q p done) =
      let (e₁, commands) = handle o.humantime (before_handle o now event d e).1 e in
      drained-Lives fuel worlds commands (opened o now event d e) d' e₁ e'
        (event-Lives event now d e t q p (Reached-Lives r)) done

  drained-Linked :
      (fuel : ℕ) (worlds : ℕ → World R) (queue : List Command) (d d' : Daemon R) (e e' : Engine)
      → Linked o d.agent
      → drain o fuel worlds 0 queue d e ≡ Drained.idle d' e'
      → Linked o d'.agent
  drained-Linked fuel worlds queue d d' e e' l done =
      subst (WhenIdle o (λ d e. Linked o d.agent)) done (
        drain-WhenIdle o (λ queue d e. Linked o d.agent) (execute-Linked o) fuel worlds 0 queue d e
          l)

  round-Linked :
      (event : Event) (now fuel : ℕ) (worlds : ℕ → World R) (d d' : Daemon R) (e e' : Engine)
      → Linked o d.agent
      → round o fuel worlds now event d e ≡ Drained.idle d' e'
      → Linked o d'.agent
  unfolding round
  round-Linked event now fuel worlds d d' e e' l done =
      let (e₁, commands) = handle o.humantime (before_handle o now event d e).1 e in
      drained-Linked fuel worlds commands (opened o now event d e) d' e₁ e'
        (subst (Linked o) (sym (opened-frame o now event d e).3) l) done

  Reached-Linked : {d : Daemon R} {e : Engine} → Reached d e → Linked o d.agent
  Reached-Linked
        (Reached.started config power hibernate file writable saved fuel worlds {d} {d'} {e'} n
          done) =
      let b = boot o.humantime config power hibernate file writable saved in
      drained-Linked fuel worlds b.0.1 d d' b.0.0 e'
        (subst (Linked o) (sym n.unlinked) (n.display, Reach.fresh)) done
  Reached-Linked (Reached.aside {d} {d'} {e} r t p a moved) =
      moved-Linked o d.agent d'.agent moved (Reached-Linked r)
  Reached-Linked (Reached.fired id now fuel worlds {d} {d'} {e} {e'} r f done) =
      round-Linked (Event.timer id) now fuel worlds (record d { timers = (Table.fired d.timers).1 })
        d' e e' (Reached-Linked r) done
  Reached-Linked (Reached.handled event now fuel worlds {d} {d'} {e} {e'} r t q p done) =
      round-Linked event now fuel worlds d d' e e' (Reached-Linked r) done

  -- Whenever the daemon waits for an event, having been told of no stop and of no power that came back
  -- in a grace period: in the grace period the grace timer runs, while the power is checked the timer
  -- of the awake window runs, and after a refused sleep the retry timer; an alarm that the daemon
  -- remembers belongs to the cycle past its grace period; and outside the cycle and in its grace period
  -- an agent that is connected and carries out what was sent to it, in its order, has the stages of the
  -- current mode. The commands may fail in any way.
  pub Reached-IsReady :
      {d : Daemon R} {e : Engine}
      → Reached d e
      → (is_grace e.state ≡ true → runs TimerId.grace d.timers ≡ true)
        × (is_checking e.state ≡ true → runs TimerId.awake_window d.timers ≡ true)
        × (e.pending_sleep ≡ true → runs TimerId.sleep_retry d.timers ≡ true)
        × (is_some d.planner.alarm ≡ true → is_past_grace e.state ≡ true)
        × (is_past_grace e.state ≡ false
            → (d.agent.stages ≡ stages e)
              × ((s : Stream)
                  → d.agent.stream ≡ some s
                  → (view s.sent blank).stages ≡ some (stages_op o.humantime (stages e))))
  Reached-IsReady {d} {e} r =
      let (m, s, l) = Reached-Lives r in
      let a = Life-Agree o.humantime l in
      let (config, linked) = Reached-Linked r in
      (
        λ h. s.grace ∙ a.timers.grace h,
        λ h. s.window ∙ a.timers.window h,
        λ h. s.retry ∙ a.timers.retry h,
        λ h. a.alarm (s.alarm h),
        λ h.
            let same = s.stages ∙ a.live h in
            (
              same,
              λ stream connected.
                  ap (λ v. v.stages) (connected-knows o.humantime linked connected)
                  ∙ ap (λ t. some (stages_op o.humantime t)) same,
            ),
      )
