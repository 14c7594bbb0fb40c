-- ===== src/Daemon/Ends.antt =====
-- The queue of commands always comes to an end (src/main.rs, src/core.rs).
use native.Mathlib.Numerals.{unary_clauses}
use mathlib.Core.List.{append-nil}
use ampered.Prelude.{
  ap, sym, ◌∙◌, subst, ℕ, zero, suc, ◌+◌, ◌≤◌, ◌<◌, ◌≡◌, refl, arith, Bool, true, false, List, [],
  ◌∷◌, ◌++◌, Option, none, some, String, length, count, count-append, Bool-cases, inl, inr,
}
use ampered.Config.Durations.{Duration}
use ampered.Config.Sections.{Config, SleepMethod}
use ampered.Logind.Actor.{LogindHandle, suspend}
use ampered.Core.Types.{Engine, Event, Command}
use ampered.Core.Modes.{set_config}
use ampered.Core.Handle.{handle, announce}
use ampered.Core.Code.{dispatch_code}
use ampered.Ipc.{RequestId, Response}
use ampered.Daemon.State.{Daemon, World, Outside, Loaded, notify, report, remember}
use ampered.Daemon.Reload.{reload_with, accept, answer}
use ampered.Daemon.Execute.{Outcome, set_alarm, execute, Step, suspend_by, delivered, told}
use ampered.Daemon.Rule.{drain-step}
use ampered.Daemon.Loop.{Drained, drain, before_handle, continued, round}

abbrev pub is_wake : Command → Bool
is_wake (Command.schedule_wake after) = true
is_wake _ = false

-- A command that may yield more commands, but none of the first kind.
abbrev pub is_told : Command → Bool
is_told (Command.suspend method force) = true
is_told (Command.reload reply_to) = true
is_told _ = false

failed-plain :
    (humantime : Duration → String) (e : Engine)
    → (count is_wake (handle humantime Event.sleep_failed e).1 ≡ 0)
      × (count is_told (handle humantime Event.sleep_failed e).1 ≡ 0)
unfolding dispatch_code handle announce
failed-plain humantime e = ground arith

wake-plain :
    (humantime : Duration → String) (armed : Bool) (e : Engine)
    → count is_wake (handle humantime (Event.wake_scheduled armed) e).1 ≡ 0
unfolding dispatch_code handle announce
wake-plain humantime armed e = ground arith

config-plain :
    (e : Engine) (c : Config)
    → (count is_wake (set_config e c).1 ≡ 0) × (count is_told (set_config e c).1 ≡ 0)
unfolding dispatch_code set_config
config-plain e c = ground arith

no_true : {A : Type 0} → true ≡ false → A
no_true t = grind (arith, t)

-- What the engine answers when it is told an outcome is of a lower kind.
Smaller : Command → Outcome → Type 0
Smaller c Outcome.shutdown = Unit {0}
Smaller c (Outcome.continue_ more) =
    (count is_wake more ≡ 0)
    × (is_wake c ≡ false → count is_told more ≡ 0)
    × (is_wake c ≡ false → is_told c ≡ false → more ≡ [])

module _ {R : Type 0} (o : Outside R) where
  reload-plain :
      (reply_to : Option RequestId) (file : Loaded) (w : World R) (d : Daemon R) (e : Engine)
      → let more = (reload_with file reply_to w d e).2 in
        (count is_wake more ≡ 0) × (count is_told more ≡ 0)
  unfolding reload_with accept answer
  reload-plain reply_to (Loaded.rejected error) w d e = (refl, refl)
  reload-plain none (Loaded.loaded c) w d e =
      let plain = config-plain e c in
      ground (
        arith,
        plain.0,
        plain.1,
        count-append is_wake (set_config e c).1 [],
        count-append is_told (set_config e c).1 [],
      )
  reload-plain (some id) (Loaded.loaded c) w d e =
      let plain = config-plain e c in
      let ok = Command.reply id Response.ok ∷ [] in
      ground (
        arith,
        plain.0,
        plain.1,
        count-append is_wake (set_config e c).1 ok,
        count-append is_told (set_config e c).1 ok,
      )

  delivered-Smaller :
      (sent : Bool) (method : SleepMethod) (force : Bool) (d : Daemon R) (e : Engine)
      → Smaller (Command.suspend method force) (delivered o sent d e).2
  unfolding delivered told Smaller
  delivered-Smaller true method force d e = (refl, λ _. refl, λ _ _. refl)
  delivered-Smaller false method force d e =
      let plain = failed-plain o.humantime e in (plain.0, λ _. plain.1, λ _ t. no_true t)

  suspend_by-Smaller :
      (logind : Option LogindHandle) (method : SleepMethod) (force : Bool) (d : Daemon R)
      (e : Engine)
      → Smaller (Command.suspend method force) (suspend_by o logind method force d e).2
  unfolding suspend_by
  suspend_by-Smaller none method force d e = delivered-Smaller false method force d e
  suspend_by-Smaller (some logind) method force d e =
      let (logind', sent) = suspend method force d.config.sleep.respect_inhibitors logind in
      delivered-Smaller sent method force (record d { logind = some logind' }) e

  execute-Smaller :
      (w : World R) (c : Command) (d : Daemon R) (e : Engine) → Smaller c (execute o w c d e).2
  unfolding execute Smaller
  execute-Smaller w (Command.suspend method force) d e =
      suspend_by-Smaller d.logind method force d e
  execute-Smaller w (Command.schedule_wake after) d e = (
    wake-plain o.humantime (set_alarm o d.rtc (w.now + after)).1 e,
    λ t. no_true t,
    λ t. no_true t,
  )
  execute-Smaller w (Command.reload reply_to) d e =
      let plain =
        reload-plain reply_to w.file w (record d { notifier = notify "RELOADING=1" d.notifier })
          e in
      (plain.0, λ _. plain.1, λ _ t. no_true t)
  execute-Smaller w Command.shutdown d e = tt
  execute-Smaller w c d e = (refl, λ _. refl, λ _ _. refl)

  abbrev pub is_over : Drained R → Bool
  is_over Drained.out_of_fuel = false
  is_over _ = true

  abbrev Ends : (ℕ → World R) → ℕ → List Command → Daemon R → Engine → Type 0
  Ends worlds k queue d e =
      (fuel : ℕ) × ((more : ℕ) → is_over (drain o (more + fuel) worlds k queue d e) ≡ true)

  -- The queue ends if what the first command leaves ends.
  step-Ends :
      (worlds : ℕ → World R) (k : ℕ) (c : Command) (rest : List Command) (d : Daemon R) (e : Engine)
      (s : Step o)
      → execute o (worlds k) c d e ≡ s
      → ((more : List Command)
          → s.2 ≡ Outcome.continue_ more
          → Ends worlds (k + 1) (rest ++ more) s.0 s.1)
      → Ends worlds k (c ∷ rest) d e
  unfolding continued
  step-Ends worlds k c rest d e (d', e', Outcome.shutdown) same h = (
    1,
    λ more.
        simp unary_clauses
          (ap is_over (drain-step o worlds more k c rest d e (d', e', Outcome.shutdown) same)),
  )
  step-Ends worlds k c rest d e (d', e', Outcome.continue_ yields) same h =
      let (fuel, over) = h yields refl in
      let s : Step o = (d', e', Outcome.continue_ yields) in
      (
        suc fuel,
        λ more.
            simp unary_clauses
              (ap is_over (drain-step o worlds (more + fuel) k c rest d e s same) ∙ over more),
      )

  ends :
      (wakes tells size : ℕ) (worlds : ℕ → World R) (k : ℕ) (queue : List Command) (d : Daemon R)
      (e : Engine)
      → count is_wake queue < wakes
      → count is_told queue < tells
      → length queue ≤ size
      → Ends worlds k queue d e
  unfolding drain Smaller
  ends wakes tells size worlds k [] d e hw ht hl = (0, λ more. refl)
  ends zero tells size worlds k (c ∷ rest) d e hw ht hl = absurd (omega arith)
  ends wakes zero size worlds k (c ∷ rest) d e hw ht hl = absurd (omega arith)
  ends wakes tells zero worlds k (c ∷ rest) d e hw ht hl = absurd (omega arith)
  ends (suc wakes) (suc tells) (suc size) worlds k (c ∷ rest) d e hw ht hl =
      let s = execute o (worlds k) c d e in
      step-Ends worlds k c rest d e s refl (λ more yields.
        let small : Smaller c (Outcome.continue_ more) =
          subst (Smaller c) yields (execute-Smaller (worlds k) c d e) in
        let queue = rest ++ more in
        let from_wakes = count-append is_wake rest more in
        let from_tells = count-append is_told rest more in
        elim (Bool-cases (is_wake c)) [
          | inl wake ↦
              ends wakes (suc (count is_told queue)) (length queue) worlds (k + 1) queue s.0 s.1
                (grind (arith, small.0, wake, from_wakes)) (omega arith) (omega arith)
          | inr plain ↦ elim (Bool-cases (is_told c)) [
            | inl yields_more ↦
                ends (suc wakes) tells (length queue) worlds (k + 1) queue s.0 s.1
                  (grind (arith, small.0, plain, from_wakes))
                  (grind (arith, small.1 plain, yields_more, from_tells)) (omega arith)
            | inr plain' ↦
                subst (λ q. Ends worlds (k + 1) q s.0 s.1)
                  (sym (ap (λ m. rest ++ m) (small.2 plain plain') ∙ append-nil rest))
                  (ends (suc wakes) (suc tells) size worlds (k + 1) rest s.0 s.1
                    (grind (arith, plain)) (grind (arith, plain')) (omega arith))
          ]
        ])

  -- Whatever the world answers at each command, the queue of an event's commands comes to an end:
  -- there is fuel with which, and with any more of it, the round ends idle or with a shutdown.
  pub is_over-round :
      (worlds : ℕ → World R) (now : ℕ) (event : Event) (d : Daemon R) (e : Engine)
      → (fuel : ℕ) × ((more : ℕ) → is_over (round o (more + fuel) worlds now event d e) ≡ true)
  unfolding round
  is_over-round worlds now event d e =
      let (d', event') = before_handle o now event d e in
      let (e', commands) = handle o.humantime event' e in
      ends (suc (count is_wake commands)) (suc (count is_told commands)) (length commands) worlds 0
        commands (report e' (remember o.rfc3339 e' d')) e' (omega arith) (omega arith) (omega arith)
