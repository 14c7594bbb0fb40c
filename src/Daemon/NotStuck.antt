-- ===== src/Daemon/NotStuck.antt =====
-- A request that logind does not take does not leave the engine waiting (src/main.rs).
use ampered.Prelude.{
  ap, sym, ◌∙◌, subst, ℕ, ◌+◌, ◌<◌, ◌≡◌, ◌≢◌, ◌⊎◌, inl, inr, refl, arith, Bool, true, false, not,
  ◌&&◌, List, [], ◌++◌, Option, none, some, String, ltb, length, count, count-append,
}
use ampered.Config.Sections.{SleepMethod, Mode, get_mode}
use ampered.Config.Durations.{Duration}
use ampered.Core.Types.{Engine, Event, Command, State}
use ampered.Core.Handle.{handle, dispatch, announce}
use ampered.Core.Modes.{mode_changed, mode_commands}
use ampered.Core.Events.{in_cycle}
use ampered.Ipc
use ampered.Core.Code.{dispatch_code}
use ampered.Logind.Actor.{
  usable, Request, try_send, LogindHandle, capacity, suspend, request_power_off,
}
use ampered.Daemon.State.{Daemon, World, Outside, Loaded, notify}
use ampered.Daemon.Reload.{reload, reload_with, accept, refuse}
use ampered.Daemon.Frames.{accept-IsKept, accept-state, opened, opened-frame}
use ampered.Daemon.Execute.{
  apply_mode, tell, schedule_wake, set_alarm, turn_off, effect, suspend_by, delivered, told,
  execute,
}
use ampered.Daemon.Loop.{before_handle, drain, round}
use ampered.Daemon.Rule.{yielded, Keeps, WhenIdle, drain-WhenIdle, WhenIdle-map}

abbrev is_suspend : Command → Bool
is_suspend (Command.suspend method force) = true
is_suspend _ = false

-- A suspend that the engine begins is asked for.
dispatch-asks :
    (humantime : Duration → String) (event : Event) (e : Engine)
    → (dispatch humantime event e).0.state ≡ State.suspending
    → (e.state ≡ State.suspending) ⊎ (0 < count is_suspend (dispatch humantime event e).1)
unfolding dispatch_code mode_changed mode_commands in_cycle
dispatch-asks humantime (Event.ipc id (Ipc.Request.sleep force)) e s = ground arith
dispatch-asks humantime (Event.ipc id (Ipc.Request.long_sleep cancel)) e s = ground arith
dispatch-asks humantime (Event.ipc id (Ipc.Request.screen state)) e s = ground arith
dispatch-asks humantime (Event.ipc id _) e s = ground arith
dispatch-asks humantime (Event.battery percent) e s = ground arith
dispatch-asks humantime (Event.ac_changed ac) e s = ground arith
dispatch-asks humantime _ e s = ground arith

failed-moves :
    (humantime : Duration → String) (e : Engine)
    → (handle humantime Event.sleep_failed e).0.state ≢ State.suspending
unfolding dispatch_code handle
failed-moves humantime e s = ground arith

handle-asks :
    (humantime : Duration → String) (event : Event) (e : Engine)
    → (handle humantime event e).0.state ≡ State.suspending
    → (e.state ≡ State.suspending) ⊎ (0 < count is_suspend (handle humantime event e).1)
unfolding handle
handle-asks humantime event e s =
    let (e', commands) = dispatch humantime event e in
    let total = count-append is_suspend commands (announce e.state e') in
    elim (dispatch-asks humantime event e s) [
      | inl before ↦ inl before
      | inr asked ↦ inr (omega arith)
    ]

-- The queue still holds the request that a suspend waits for.
abbrev pub Asked : List Command → Engine → Type 0
Asked queue e = e.state ≡ State.suspending → 0 < count is_suspend queue

Asked-told :
    (humantime : Duration → String) (event : Event) (rest : List Command) (e : Engine)
    → Asked rest e
    → Asked (rest ++ (handle humantime event e).1) (handle humantime event e).0
Asked-told humantime event rest e h s =
    let (e', more) = handle humantime event e in
    let total = count-append is_suspend rest more in
    elim (handle-asks humantime event e s) [
      | inl before ↦ let still = h before in omega arith
      | inr asked ↦ omega arith
    ]

unfoldable pub refuses : Option LogindHandle → Bool
refuses none = true
refuses (some logind) = not (ltb (length logind.requests) capacity && not logind.closed)

try_send-refuses :
    (request : Request) (h : LogindHandle)
    → refuses (some h) ≡ true
    → try_send request h ≡ (h, false)
unfolding try_send refuses
try_send-refuses request h r = ground arith

module _ {R : Type 0} (o : Outside R) where
  -- logind takes no request, and what a suspend waits for is in the queue.
  abbrev Waits : List Command → Daemon R → Engine → Type 0
  Waits queue d e = (refuses d.logind ≡ true) × Asked queue e

  later : (rest more : List Command) (e : Engine) → Asked rest e → Asked (rest ++ more) e
  later rest more e h s =
      let total = count-append is_suspend rest more in let still = h s in omega arith

  suspend_by-Waits :
      (logind : Option LogindHandle) (method : SleepMethod) (force : Bool) (rest : List Command)
      (d : Daemon R) (e : Engine)
      → logind ≡ d.logind
      → refuses logind ≡ true
      → let s = suspend_by o logind method force d e in Waits (rest ++ yielded s.2) s.0 s.1
  unfolding suspend_by delivered suspend told
  suspend_by-Waits none method force rest d e same r =
      (subst (λ l. refuses l ≡ true) same r, λ s. absurd (failed-moves o.humantime e s))
  suspend_by-Waits (some logind) method force rest d e same r =
      let request =
        Request.sleep (usable logind.hibernate_available method) force
          d.config.sleep.respect_inhibitors in
      let untaken = try_send-refuses request logind r in
      rw untaken (r, λ s. absurd (failed-moves o.humantime e s))

  apply_mode-logind :
      (name : String) (mode : Option Mode) (d : Daemon R)
      → (apply_mode o name mode d).logind ≡ d.logind
  unfolding apply_mode
  apply_mode-logind name none d = refl
  apply_mode-logind name (some mode) d = refl

  tell-logind :
      (w : World R) (event : Ipc.StateEvent) (d : Daemon R) (e : Engine)
      → (tell o w event d e).logind ≡ d.logind
  unfolding tell
  tell-logind w event d e = ground arith

  power_off-refuses : (l : Option LogindHandle) → refuses l ≡ true → refuses (turn_off o l) ≡ true
  unfolding turn_off request_power_off refuses
  power_off-refuses none r = r
  power_off-refuses (some l) r =
      ap (λ t. refuses (some t.0)) (try_send-refuses Request.power_off l r) ∙ r

  reload-Waits :
      (reply_to : Option Ipc.RequestId) (file : Loaded) (w : World R) (rest : List Command)
      (d : Daemon R) (e : Engine)
      → Waits rest d e
      → let s = reload_with file reply_to w d e in Waits (rest ++ s.2) s.0 s.1
  unfolding reload_with refuse
  reload-Waits none (Loaded.rejected error) w rest d e (r, h) = (r, later rest [] e h)
  reload-Waits (some id) (Loaded.rejected error) w rest d e (r, h) = (r, later rest [] e h)
  reload-Waits reply_to (Loaded.loaded c) w rest d e (r, h) =
      let s = accept reply_to c w d e in
      let kept = accept-IsKept reply_to c w d e in
      (cc, λ now. later rest s.2 e h (sym (accept-state reply_to c w d e) ∙ now))

  execute-Waits : Keeps o Waits
  unfolding execute schedule_wake told reload effect
  execute-Waits w (Command.suspend method force) rest d e (r, h) =
      suspend_by-Waits d.logind method force rest d e refl r
  execute-Waits w (Command.schedule_wake after) rest d e (r, h) = (
    r,
    Asked-told o.humantime (Event.wake_scheduled (set_alarm o d.rtc (w.now + after)).1) rest e h,
  )
  execute-Waits w (Command.reload reply_to) rest d e (r, h) =
      reload-Waits reply_to w.file w rest (record d { notifier = notify "RELOADING=1" d.notifier })
        e (r, h)
  execute-Waits w Command.power_off rest d e (r, h) =
      (power_off-refuses d.logind r, later rest [] e h)
  execute-Waits w (Command.apply_mode name) rest d e (r, h) = (
    subst (λ l. refuses l ≡ true) (sym (apply_mode-logind name (get_mode d.config.modes name) d)) r,
    later rest [] e h,
  )
  execute-Waits w (Command.reply id response) rest d e (r, h) = (r, later rest [] e h)
  execute-Waits w (Command.broadcast event) rest d e (r, h) =
      (subst (λ l. refuses l ≡ true) (sym (tell-logind w event d e)) r, later rest [] e h)
  execute-Waits w c rest d e (r, h) = (r, later rest [] e h)

  -- While logind takes no request (there is no connection to the bus, its channel is full, or its
  -- executor is gone), a daemon that is not suspending is not suspending when it is idle again,
  -- whatever the event and whatever fails meanwhile.
  pub round-IsNotStuck :
      (fuel : ℕ) (worlds : ℕ → World R) (now : ℕ) (event : Event) (d : Daemon R) (e : Engine)
      → refuses d.logind ≡ true
      → e.state ≢ State.suspending
      → WhenIdle o (λ d' e'. e'.state ≢ State.suspending) (round o fuel worlds now event d e)
  unfolding round
  round-IsNotStuck fuel worlds now event d e r s =
      let (d', event') = before_handle o now event d e in
      let (e', commands) = handle o.humantime event' e in
      let start = opened o now event d e in
      WhenIdle-map o (Waits []) (λ d'' e''. e''.state ≢ State.suspending)
        (λ d'' e'' h now. let none_left = h.1 now in omega arith)
        (drain o fuel worlds 0 commands start e')
        (drain-WhenIdle o Waits execute-Waits fuel worlds 0 commands start e' (
          subst (λ l. refuses l ≡ true) (sym (opened-frame o now event d e).0) r,
          λ now_waits. elim (handle-asks o.humantime event' e now_waits) [
            | inl before ↦ absurd (s before)
            | inr asked ↦ asked
          ],
        ))
