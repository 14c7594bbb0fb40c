-- ===== src/Core/GiveUp.antt =====
-- The server cycle gives up, or goes on, after attempts that do not end in a suspend.
use ampered.Prelude.{◌∙◌, ◌+◌, ◌<◌, ◌≡◌, false, String, arith, List, [], ◌∷◌}
use ampered.Config.Durations.{Duration}
use ampered.Core.Types.{Engine, Event, State, Phase, Inhibitor, TimerId}
use ampered.Core.Handle.{handle, run}
use ampered.Core.Code.{handler_code}
use ampered.Core.Frames.{leave_cycle-frame}

-- What tells the engine that an attempt did not sleep.
pub data IsFailure : Event → Type 0 where
  no_alarm : IsFailure (Event.wake_scheduled false)
  refused : IsFailure Event.sleep_failed
  blocked : (l : List Inhibitor) → IsFailure (Event.sleep_blocked l)
  touched : IsFailure Event.activity

abbrev pub window_over : Event
window_over = Event.timer TimerId.awake_window

-- A failure counts, and the third in a row ends the cycle.
pub failure-counts :
    (humantime : Duration → String) (e : Engine) (event : Event)
    → IsFailure event
    → e.state ≡ State.long_sleep Phase.armed
    → e.sleep_failures < 2
    → ((handle humantime event e).0.state ≡ State.long_sleep Phase.armed)
      × ((handle humantime event e).0.sleep_failures ≡ e.sleep_failures + 1)
      × ((handle humantime event e).0.power.ac ≡ e.power.ac)
unfolding handler_code handle
failure-counts humantime e _ IsFailure.no_alarm s f = grind (arith, leave_cycle-frame)
failure-counts humantime e _ IsFailure.refused s f = grind (arith, leave_cycle-frame)
failure-counts humantime e _ (IsFailure.blocked l) s f = grind (arith, leave_cycle-frame)
failure-counts humantime e _ IsFailure.touched s f = grind (arith, leave_cycle-frame)

third-ends :
    (humantime : Duration → String) (e : Engine) (event : Event)
    → IsFailure event
    → e.state ≡ State.long_sleep Phase.armed
    → e.sleep_failures ≡ 2
    → (handle humantime event e).0.state ≡ State.active
unfolding handler_code handle
third-ends humantime e _ IsFailure.no_alarm s f = grind (arith, leave_cycle-frame)
third-ends humantime e _ IsFailure.refused s f = grind (arith, leave_cycle-frame)
third-ends humantime e _ (IsFailure.blocked l) s f = grind (arith, leave_cycle-frame)
third-ends humantime e _ IsFailure.touched s f = grind (arith, leave_cycle-frame)

-- On battery the end of the window starts the next attempt.
window-retries :
    (humantime : Duration → String) (e : Engine)
    → e.state ≡ State.long_sleep Phase.armed
    → e.power.ac ≡ false
    → ((handle humantime window_over e).0.state ≡ State.long_sleep Phase.armed)
      × ((handle humantime window_over e).0.sleep_failures ≡ e.sleep_failures)
      × ((handle humantime window_over e).0.power.ac ≡ false)
unfolding handler_code handle
window-retries humantime e s a = ground arith

-- From `Armed` on battery with no failure counted, three attempts in a row that do not sleep, each
-- of them in any of the four ways and with the window over in between, end the cycle in `Active`.
pub run-gives_up :
    (humantime : Duration → String) (e : Engine) (a b c : Event)
    → IsFailure a
    → IsFailure b
    → IsFailure c
    → e.state ≡ State.long_sleep Phase.armed
    → e.power.ac ≡ false
    → e.sleep_failures ≡ 0
    → (run humantime (a ∷ (window_over ∷ (b ∷ (window_over ∷ (c ∷ []))))) e).state ≡ State.active
unfolding run
run-gives_up humantime e a b c fa fb fc s ac z =
    let e₁ = (handle humantime a e).0 in
    let h₁ = failure-counts humantime e a fa s (omega arith) in
    let e₂ = (handle humantime window_over e₁).0 in
    let h₂ = window-retries humantime e₁ h₁.0 (h₁.2 ∙ ac) in
    let e₃ = (handle humantime b e₂).0 in
    let h₃ = failure-counts humantime e₂ b fb h₂.0 (omega arith) in
    let e₄ = (handle humantime window_over e₃).0 in
    let h₄ = window-retries humantime e₃ h₃.0 (h₃.2 ∙ h₂.2) in
    third-ends humantime e₄ c fc h₄.0 (omega arith)
