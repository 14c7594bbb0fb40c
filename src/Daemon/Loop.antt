-- ===== src/Daemon/Loop.antt =====
-- The loop of `run` in src/main.rs: the start, a round of the loop, and the queue of commands.
use ampered.Prelude.{
  ℕ, zero, suc, ◌+◌, Bool, true, false, not, ◌&&◌, List, [], ◌∷◌, ◌++◌, Option, none, some, String,
  if◌then◌else◌,
}
use ampered.Config.Durations.{Duration}
use ampered.Config.Sections.{Config}
use ampered.Core.Types.{Engine, Event, Command, State, Phase, PowerSnapshot}
use ampered.Core.Modes.{new, start, restore_manual_mode}
use ampered.Core.Cycle.{resume_cycle}
use ampered.Core.Handle.{handle}
use ampered.Backlight.Controller.{settle}
use ampered.Logind.Saved.{SavedState, ModeFile, in_long_sleep, load_manual_mode, save_manual_mode}
use ampered.Power.Supply.{recheck_after_resume}
use ampered.Wake.Planner.{Wake, classify}
use ampered.Daemon.State.{Daemon, World, Outside, remember, report, notify}
use ampered.Daemon.Execute.{Outcome, execute}

-- What the queue of commands comes to: it is empty, the daemon stops, or the fuel has run out.
pub data Drained (R : Type 0) : Type 0 where
  idle : Daemon R → Engine → Drained R
  stopped : Daemon R → Engine → Drained R
  out_of_fuel : Drained R

unfoldable pub restored : Engine → ModeFile → Engine × Bool → Bool → Engine × ModeFile
unfolding save_manual_mode
restored e file (e', true) writable = (e', file)
restored e file (e', false) writable = (e', save_manual_mode writable none file)

unfoldable pub with_manual : Engine → ModeFile → Bool → Option String → Engine × ModeFile
unfolding restored restore_manual_mode
with_manual e file writable none = (e, file)
with_manual e file writable (some name) = restored e file (restore_manual_mode e name) writable

unfoldable pub was_in_cycle : Option SavedState → Bool
unfolding in_long_sleep
was_in_cycle none = false
was_in_cycle (some saved) = in_long_sleep saved

unfoldable pub picked_up : Bool → Engine × List Command → Engine × List Command
unfolding resume_cycle
picked_up false (e, commands) = (e, commands)
picked_up true (e, commands) = let (e', more) = resume_cycle e in (e', commands ++ more)

-- The start: the mode of a previous run, the first commands, and the cycle of a previous run.
unfoldable pub boot :
    (Duration → String)
    → Config
    → PowerSnapshot
    → Bool
    → ModeFile
    → Bool
    → Option SavedState
    → (Engine × List Command) × ModeFile
unfolding with_manual was_in_cycle picked_up load_manual_mode
boot humantime config power hibernate file writable saved =
    let (e, file') = with_manual (new config power) file writable (load_manual_mode file) in
    let (e', commands) = handle humantime (Event.hibernate_available hibernate) e in
    (
      picked_up (config.server.enabled && not power.ac && was_in_cycle saved)
          (e', start e ++ commands),
      file',
    )

module _ {R : Type 0} (o : Outside R) where
  unfoldable pub continued :
      Daemon R → Engine → List Command → Outcome → (List Command → Drained R) → Drained R
  continued d e rest Outcome.shutdown go = Drained.stopped d e
  continued d e rest (Outcome.continue_ more) go = go (rest ++ more)

  -- The queue: commands are taken from its front, and what they yield goes behind it. The world may
  -- answer differently for each: `worlds k` is what it answers from the `k`-th command on.
  unfoldable pub drain : ℕ → (ℕ → World R) → ℕ → List Command → Daemon R → Engine → Drained R
  unfolding continued
  drain fuel worlds k [] d e = Drained.idle d e
  drain zero worlds k (command ∷ rest) d e = Drained.out_of_fuel
  drain (suc fuel) worlds k (command ∷ rest) d e =
      let (d', e', outcome) = execute o (worlds k) command d e in
      continued d' e' rest outcome (λ queue. drain fuel worlds (k + 1) queue d' e')

  by_user : Wake → Bool
  by_user Wake.user = true
  by_user Wake.scheduled = false

  unfoldable pub resumed_in : State → ℕ → Daemon R → Daemon R × Event
  unfolding by_user classify
  resumed_in (State.long_sleep Phase.sleeping) now d =
      let (wake, planner) = classify now d.config.server.alarm_slack d.planner in
      (
        record d { planner = planner },
        if by_user wake then Event.resumed_by_user else Event.resumed,
      )
  resumed_in _ now d = (d, Event.resumed)

  -- What the loop does with an event before the engine sees it.
  unfoldable pub before_handle : ℕ → Event → Daemon R → Engine → Daemon R × Event
  unfolding resumed_in recheck_after_resume
  before_handle now Event.resumed d e =
      resumed_in e.state now (record d { supply = recheck_after_resume now d.supply })
  before_handle now (Event.idle_backend_changed connected) d e = (
    record d { fallback = record d.fallback { compositor = connected } },
    Event.idle_backend_changed connected,
  )
  before_handle now event d e = (d, event)

  -- A round of the loop: the event, and the commands it leads to.
  unfoldable pub round : ℕ → (ℕ → World R) → ℕ → Event → Daemon R → Engine → Drained R
  unfolding before_handle remember report
  round fuel worlds now event d e =
      let (d', event') = before_handle now event d e in
      let (e', commands) = handle o.humantime event' e in
      drain fuel worlds 0 commands (report e' (remember o.rfc3339 e' d')) e'

  -- The end: systemd is told, and the brightness is on its way back before the process goes.
  unfoldable pub stop : Daemon R → Daemon R
  unfolding notify settle
  stop d = record d { notifier = notify "STOPPING=1" d.notifier; backlight = settle d.backlight }
