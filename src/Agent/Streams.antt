-- ===== src/Agent/Streams.antt =====
-- Streams that were replaced or lost (src/agent.rs).
use ampered.Prelude.{◌+◌, ◌<◌, ◌^◌, ◌≡◌, refl, arith, true, false, String, Bool-cases, inl, inr}
use ampered.Config.Durations.{Duration}
use ampered.Config.Sections.{Display}
use ampered.Agent.Link.{
  push, noted, AgentEvent, AgentId, AgentLink, new, send, replace_stages, set_screen, set_display,
  register, is_current, unregister, note, is_connected,
}
use ampered.Agent.Resend.{Step, Reach}

-- The end of a stream that was replaced does not unregister its successor, and what still comes on
-- it is ignored; the end of the successor counts. The counter must not be at the end of its 64 bits.
replaced-unregister :
    (humantime : Duration → String) (l : AgentLink) (event : AgentEvent)
    → l.next_id + 1 < 2 ^ 64
    → let (first, old) = register humantime l in
      let (second, current) = register humantime first in
      (unregister old second ≡ (second, false))
      × (note old event second ≡ second)
      × ((unregister current second).1 ≡ true)
      × (is_connected (unregister current second).0 ≡ false)
unfolding register unregister note send push is_connected is_current
replaced-unregister humantime l event h = ground arith

-- Without an agent the status has no idle backend and no display.
abbrev IsQuiet : AgentLink → Type 0
IsQuiet l = is_connected l ≡ false → (l.backend_connected ≡ false) × (l.display_available ≡ false)

noted-IsQuiet :
    (event : AgentEvent) (l : AgentLink) → is_connected l ≡ true → IsQuiet (noted event l)
unfolding noted is_connected
noted-IsQuiet event l h = ground arith

current_connected :
    (id : AgentId) (l : AgentLink) → is_current id l.stream ≡ true → is_connected l ≡ true
unfolding is_current is_connected
current_connected id l h = ground arith

module _ (humantime : Duration → String) where
  Step-IsQuiet : {l l' : AgentLink} → Step humantime l l' → IsQuiet l → IsQuiet l'
  unfolding replace_stages set_screen set_display send register unregister note push is_connected
  Step-IsQuiet (Step.stages s l) k = ground arith
  Step-IsQuiet (Step.screen on l) k = ground arith
  Step-IsQuiet (Step.display d l) k = ground arith
  Step-IsQuiet (Step.registers l) k = ground arith
  Step-IsQuiet (Step.unregisters id l) k = ground arith
  Step-IsQuiet (Step.notes id event l) k = elim (Bool-cases (is_current id l.stream)) [
    | inl same ↦ rw same (noted-IsQuiet event l (current_connected id l same))
    | inr other ↦ rw other k
  ]

  -- Whenever no agent is connected, the status shows neither a connected idle backend nor a display
  -- that can be turned off: what a lost or replaced agent said of itself is forgotten.
  disconnected-quiet :
      {config : Display} {l : AgentLink}
      → Reach humantime config l
      → is_connected l ≡ false
      → (l.backend_connected ≡ false) × (l.display_available ≡ false)
  unfolding new
  disconnected-quiet Reach.fresh h = (refl, refl)
  disconnected-quiet (Reach.then_step r s) h = Step-IsQuiet s (disconnected-quiet r) h
