-- ===== src/Agent/Wanted.antt =====
-- The idle stages from the daemon to the watcher (src/agent.rs, src/bin/ampered-agent.rs).
use ampered.Prelude.{[], ◌≡◌, refl, Bool, false, Option, none, some, String, str_eq, trim, ap, ◌∙◌}
use ampered.Config.Durations.{Duration, format_duration, parse_duration, is_zero}
use ampered.Core.Types.{Stages, Stage, get_stage}
use ampered.Agent.Link.{stages_op, or_zero}
use ampered.Agent.Screen.{Request, request}
use ampered.Agent.Session.{Agent, apply, parse_stages, enabled}

-- The printer of the crate humantime writes the duration as a word, not `0`, that its parser reads back.
pub record IsReadable (parse : String → Option Duration) (humantime : Duration → String)
    (d : Duration) : Type 0 where
  pub nonzero : is_zero d ≡ false
  pub word : trim (humantime d) ≡ humantime d
  pub named : str_eq (humantime d) "0" ≡ false
  pub reads : parse (humantime d) ≡ some d

module _ (parse : String → Option Duration) (humantime : Duration → String) where
  duration-text :
      (d : Duration)
      → IsReadable parse humantime d
      → parse_duration parse (format_duration humantime d) ≡ some d
  unfolding parse_duration format_duration
  duration-text d h = rw h.nonzero (rw h.word (rw h.named h.reads))

  stage-text :
      (o : Option Duration)
      → ((d : Duration) → o ≡ some d → IsReadable parse humantime d)
      → enabled (parse_duration parse (format_duration humantime (or_zero o))) ≡ o
  unfolding parse_duration format_duration trim
  stage-text none h = refl
  stage-text (some d) h = let r = h d refl in ap enabled (duration-text d r) ∙ rw r.nonzero refl

  -- What the daemon sends for some stages makes the agent ask the watcher for exactly these stages, a
  -- disabled one included, if the crate reads back the durations of the enabled ones.
  pub apply-stages_op :
      (run : String → Bool) (s : Stages) (a : Agent)
      → ((stage : Stage) (d : Duration) → get_stage s stage ≡ some d → IsReadable parse humantime d)
      → apply parse run (stages_op humantime s) a
        ≡ (record a { idle = request (Request.stages s) a.idle }, [])
  unfolding apply stages_op parse_stages get_stage
  apply-stages_op run s a h = rw (stage-text s.dim (h Stage.dim)) (
      rw (stage-text s.screen_off (h Stage.screen_off))
        (rw (stage-text s.sleep (h Stage.sleep)) refl))
