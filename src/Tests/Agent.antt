-- ===== src/Tests/Agent.antt =====
-- The theorems on the agent link at a concrete session (src/agent.rs).
use ampered.Prelude.{◌≡◌, refl, List, [], ◌∷◌, some}
use ampered.Config.Durations.{format_duration}
use ampered.Agent.Link.{AgentOp, AgentLink, new, register, replace_stages, stages_op, send, push}
use ampered.Agent.Resend.{Reach, Step, view, blank, settings, connected-knows}
use ampered.Tests.Samples.{config, humantime, saving}

abbrev started : AgentLink
started = new config.display

-- An agent comes, and the mode changes.
abbrev session : AgentLink
session = replace_stages humantime saving (register humantime started).0

abbrev sent : List AgentOp
sent =
    AgentOp.display config.display
    ∷ (AgentOp.stages "0" "0" "0" ∷ (AgentOp.stages "10m" "10m" "10m" ∷ []))

session-Reach : Reach humantime config.display session
session-Reach =
    Reach.then_step (Reach.then_step Reach.fresh (Step.registers started))
      (Step.stages saving (register humantime started).0)

session_stream : session.stream ≡ some (record { id = 1; sent = sent })
unfolding new register replace_stages send push stages_op format_duration
session_stream = refl

connected-knows_example : view sent blank ≡ settings humantime session
connected-knows_example = connected-knows humantime session-Reach session_stream
