-- ===== src/Tests/Session.antt =====
-- The theorems on the agent at concrete sessions (src/bin/ampered-agent.rs, src/display.rs, src/idle.rs).
use ampered.Prelude.{
  ◌≡◌, ◌≤◌, refl, arith, Bool, true, false, List, [], ◌∷◌, ◌++◌, Option, none, some, String, str_eq,
  subst, ap, trim, if◌then◌else◌,
}
use ampered.Config.Durations.{Duration, from_secs}
use ampered.Config.Sections.{Display, DisplayBackend}
use ampered.Core.Types.{Event, Stage, Stages, get_stage, no_stages}
use ampered.Agent.Link.{AgentOp, AgentLink, new, register, send, push, stages_op, is_current}
use ampered.Agent.Watcher.{Watcher, Interface, connected, on_global, on_idled, set_stages}
use ampered.Agent.Watching.{
  IsCurrent, Step, Reach, Reach-IsCurrent, resume_all, one_activity, resume_all-IsOnce,
}
use ampered.Agent.Screen.{IdleHandle, Request, request, new_screen, set, is_last, is_available}
use ampered.Agent.Settling.{Does, Settles, set-Settles}
use ampered.Agent.Session.{Agent, Input, serve, apply}
use ampered.Agent.Reporting.{Knows, note_all, is_stale, serve-Knows}
use ampered.Agent.Reconnect.{Message, Attempt, spawned, reconnect_max_backoff, drain_requests}
use ampered.Agent.Silent.{backend_after}
use ampered.Agent.Asked.{all_asked}
use ampered.Agent.Mourned.{reconnects, reconnects-mourned}
use ampered.Agent.Wanted.{IsReadable, apply-stages_op}
use ampered.Tests.Samples.{humantime, saving}

-- A compositor with a seat and the notifier.
abbrev seated : Watcher
seated = on_global 1 Interface.seat (connected no_stages)

abbrev notified : Watcher
notified = on_global 2 Interface.idle_notifier seated

-- The daemon asked for no stages before, and for those of the mode once there was an output.
abbrev asked : Watcher
asked = set_stages saving (on_global 3 Interface.output notified)

abbrev idle_now : Watcher
idle_now = on_idled Stage.dim asked

idle_now-Reach : Reach saving idle_now
idle_now-Reach =
    Reach.then_step
      (Reach.then_step
        (Reach.then_step
          (Reach.then_step
            (Reach.then_step (Reach.begins no_stages)
              (Step.global no_stages 1 Interface.seat (connected no_stages)))
            (Step.global no_stages 2 Interface.idle_notifier seated))
          (Step.global no_stages 3 Interface.output notified))
        (Step.stages no_stages saving (on_global 3 Interface.output notified)))
      (Step.idled saving Stage.dim asked)

Reach-IsCurrent_example : IsCurrent saving idle_now
Reach-IsCurrent_example = Reach-IsCurrent idle_now-Reach

resume_all-IsOnce_example :
    (resume_all idle_now.notifications idle_now).outgoing
    ≡ idle_now.outgoing ++ one_activity idle_now.notifications
resume_all-IsOnce_example = resume_all-IsOnce idle_now-Reach

abbrev helpers : Display
helpers = record {
  backend = DisplayBackend.command;
  off_command = some "off";
  on_command = some "on";
}

abbrev watching : IdleHandle
watching = record { requests = []; output_power = false }

-- Only turning the screen on works.
abbrev run : String → Bool
run helper = str_eq helper "on"

set-Settles_example :
    Does
      (is_last false (new_screen helpers).last)
      false
      (new_screen helpers)
      watching
      (set run false (new_screen helpers) watching)
    × Settles
        (is_last false (new_screen helpers).last)
        (is_available watching (new_screen helpers))
        run
        false
        (set run false (new_screen helpers) watching)
set-Settles_example = set-Settles run false (new_screen helpers) watching

abbrev parse : String → Option Duration
parse text = if str_eq text "10m" then some (from_secs 600) else none

abbrev agent : Agent
agent = record { idle = watching; display = none; backend_connected = false }

abbrev link : AgentLink
link = (register humantime (new helpers)).0

abbrev inputs : List Input
inputs =
    Input.op (AgentOp.display helpers)
    ∷ (Input.op (AgentOp.stages "10m" "0" "0")
        ∷ (Input.power true
            ∷ (Input.watched (Event.idle_backend_changed true)
                ∷ (Input.op (AgentOp.screen false) ∷ []))))

link_current : is_current 1 link.stream ≡ true
unfolding is_current new register send push stages_op
link_current = refl

serve-Knows_example :
    let (a', said) = serve parse run inputs agent in
    Knows 1 (is_stale false inputs) (note_all 1 said link) a'
serve-Knows_example = serve-Knows parse run 1 inputs link agent link_current

abbrev sleepy : Stages
sleepy = record { dim = none; screen_off = none; sleep = some (from_secs 600) }

ten_minutes-IsReadable : IsReadable parse humantime (from_secs 600)
unfolding trim
ten_minutes-IsReadable = record { nonzero = refl; word = refl; named = refl; reads = refl }

sleepy-IsReadable :
    (stage : Stage) (d : Duration) → get_stage sleepy stage ≡ some d → IsReadable parse humantime d
unfolding get_stage
sleepy-IsReadable Stage.dim d h = ground arith
sleepy-IsReadable Stage.screen_off d h = ground arith
sleepy-IsReadable Stage.sleep d h =
    subst (IsReadable parse humantime) (ap (λ o. elim o [ none ↦ 0 | some e ↦ e ]) h)
      ten_minutes-IsReadable

apply-stages_op_example :
    apply parse run (stages_op humantime sleepy) agent
    ≡ (record agent { idle = request (Request.stages sleepy) watching }, [])
apply-stages_op_example = apply-stages_op parse humantime run sleepy agent sleepy-IsReadable

-- The first connection is refused; the second finds the notifier, gets stages, and breaks off.
abbrev attempts : List (List Request × Attempt)
attempts =
    (Request.screen true ∷ [], Attempt.refused)
    ∷ ((
      [],
      Attempt.served (Message.global 1 Interface.seat ∷ [])
          (record {
            pending = Message.global 2 Interface.idle_notifier ∷ [];
            next = some (Request.stages saving);
          }
            ∷ (record { pending = Message.idled Stage.dim ∷ []; next = none } ∷ []))
          (Message.resumed Stage.dim ∷ []),
    )
        ∷ [])

reconnects-mourned_example :
    let r = reconnects attempts spawned in
    (backend_after r.events false ≡ false)
    × ((r.backoff ≤ reconnect_max_backoff)
        × (r.stages ≡ drain_requests (all_asked attempts) no_stages))
reconnects-mourned_example = reconnects-mourned attempts
