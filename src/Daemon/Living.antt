-- ===== src/Daemon/Living.antt =====
-- The commands of src/main.rs (`Daemon::execute`) keep the engine beside the machine that the daemon
-- simulates.
use ampered.Prelude.{
  ap, sym, subst, ◌∙◌, ◌+◌, ◌≡◌, refl, Bool, true, false, List, [], ◌∷◌, ◌++◌, Option, none, some,
  is_some,
}
use ampered.Config.Sections.{Config, SleepMethod}
use ampered.Ipc.{RequestId, Response}
use ampered.Ipc.Server.{reply}
use ampered.Core.Types.{Engine, Command, Event}
use ampered.Core.Handle.{handle}
use ampered.Core.Modes.{set_config}
use ampered.Core.Machine.{Machine, perform, fire, perform-append}
use ampered.Core.Machine.{execute as act}
use ampered.Core.Screen.{power_back_in_grace}
use ampered.Core.IdleStages.{is_shutdown}
use ampered.Core.Life.{Life}
use ampered.Logind.Actor.{LogindHandle, suspend}
use ampered.Daemon.State.{Daemon, World, Outside, Loaded, notify, remember}
use ampered.Daemon.Reload.{reload, reload_with, accept, refuse, answer}
use ampered.Daemon.Execute.{execute, effect, suspend_by, delivered, told, schedule_wake, set_alarm}
use ampered.Daemon.Rule.{yielded, Keeps}
use ampered.Daemon.Frames.{accept-IsKept}
use ampered.Daemon.Simulates.{IsSimulated, kept-IsSimulated, effect-IsSimulated}

module _ {R : Type 0} (o : Outside R) where
  -- The daemon is like a machine which, once the queue is carried out, the engine has lived beside.
  abbrev pub Lives : List Command → Daemon R → Engine → Type 0
  Lives queue d e = (m : Machine) × IsSimulated d m × Life o.humantime e (perform queue m)

  -- A command that yields nothing.
  plain-Lives :
      (c : Command) (rest : List Command) (d d' : Daemon R) (e : Engine) (m : Machine)
      → IsSimulated d' (act c m)
      → Life o.humantime e (perform (c ∷ rest) m)
      → Lives (rest ++ []) d' e
  plain-Lives c rest d d' e m s l =
      (act c m, s, subst (Life o.humantime e) (sym (perform-append rest [] (act c m))) l)

  -- The engine is told an outcome, which is no timer and no power.
  told-Lives :
      (event : Event) (rest : List Command) (d : Daemon R) (e : Engine) (m : Machine)
      → ((m' : Machine) → fire event m' ≡ m')
      → power_back_in_grace event e ≡ false
      → is_shutdown event ≡ false
      → IsSimulated d m
      → Life o.humantime e (perform rest m)
      → let (e', more) = handle o.humantime event e in Lives (rest ++ more) d e'
  told-Lives event rest d e m inert q p s l =
      let (e', more) = handle o.humantime event e in
      (
        m,
        s,
        subst (Life o.humantime e')
            (ap (perform more) (inert (perform rest m)) ∙ sym (perform-append rest more m))
            (Life.event event l q p),
      )

  delivered-Lives :
      (sent : Bool) (rest : List Command) (d : Daemon R) (e : Engine) (m : Machine)
      → IsSimulated d m
      → Life o.humantime e (perform rest m)
      → let s = delivered o sent d e in Lives (rest ++ yielded s.2) s.0 s.1
  unfolding delivered told
  delivered-Lives true rest d e m s l =
      (m, s, subst (Life o.humantime e) (sym (perform-append rest [] m)) l)
  delivered-Lives false rest d e m s l =
      told-Lives Event.sleep_failed rest d e m (λ m'. refl) refl refl s l

  suspend_by-Lives :
      (logind : Option LogindHandle) (method : SleepMethod) (force : Bool) (rest : List Command)
      (d : Daemon R) (e : Engine) (m : Machine)
      → IsSimulated d m
      → Life o.humantime e (perform rest m)
      → let s = suspend_by o logind method force d e in Lives (rest ++ yielded s.2) s.0 s.1
  unfolding suspend_by
  suspend_by-Lives none method force rest d e m s l = delivered-Lives false rest d e m s l
  suspend_by-Lives (some logind) method force rest d e m s l =
      let (logind', sent) = suspend method force d.config.sleep.respect_inhibitors logind in
      let d' : Daemon R = record d { logind = some logind' } in
      delivered-Lives sent rest d' e m (kept-IsSimulated d d' m refl (λ h. h) refl s) l

  accept-perform :
      (to : Option RequestId) (c : Config) (w : World R) (d : Daemon R) (e : Engine) (m : Machine)
      → perform (accept to c w d e).2 m ≡ perform (set_config e c).1 m
  unfolding accept answer
  accept-perform none c w d e m = perform-append (set_config e c).1 [] m
  accept-perform (some id) c w d e m =
      perform-append (set_config e c).1 (Command.reply id Response.ok ∷ []) m

  reload-Lives :
      (to : Option RequestId) (file : Loaded) (w : World R) (rest : List Command) (d : Daemon R)
      (e : Engine) (m : Machine)
      → IsSimulated d m
      → Life o.humantime e (perform rest m)
      → let s = reload_with file to w d e in Lives (rest ++ s.2) s.0 s.1
  unfolding reload_with refuse accept reply
  reload-Lives none (Loaded.rejected error) w rest d e m s l =
      let d' : Daemon R = record d { notifier = notify "READY=1" d.notifier } in
      plain-Lives (Command.reload none) rest d d' e m (kept-IsSimulated d d' m refl (λ h. h) refl s)
        l
  reload-Lives (some id) (Loaded.rejected error) w rest d e m s l =
      let d' : Daemon R = record d {
        notifier = notify "READY=1" d.notifier;
        server = reply id (Response.error error) d.server;
      } in
      plain-Lives (Command.reload none) rest d d' e m (kept-IsSimulated d d' m refl (λ h. h) refl s)
        l
  reload-Lives to (Loaded.loaded c) w rest d e m s l =
      let (d', e', more) = accept to c w d e in
      let kept = accept-IsKept to c w d e in
      (
        m,
        kept-IsSimulated d d' m (ap (λ t. t.running) kept.timers)
            (λ h. ap (λ p. is_some p.alarm) (sym kept.planner) ∙ h) kept.stages s,
        subst (Life o.humantime e')
            (sym (accept-perform to c w d e (perform rest m)) ∙ sym (perform-append rest more m))
            (Life.reload c l),
      )

  pub execute-Lives : Keeps o Lives
  unfolding execute schedule_wake told reload remember
  execute-Lives w (Command.suspend method force) rest d e (m, s, l) =
      suspend_by-Lives d.logind method force rest d e m s l
  execute-Lives w (Command.schedule_wake after) rest d e (m, s, l) =
      let (rtc, done) = set_alarm o d.rtc (w.now + after) in
      let m' : Machine = record m { alarm = true } in
      let d' = (schedule_wake o (w.now + after) d e).0 in
      told-Lives (Event.wake_scheduled done) rest d' e m' (λ m₁. refl) refl refl
        (record {
          grace = s.grace;
          window = s.window;
          retry = s.retry;
          alarm = λ _. refl;
          stages = s.stages;
        })
        l
  execute-Lives w (Command.reload to) rest d e (m, s, l) =
      let d' : Daemon R = record d { notifier = notify "RELOADING=1" d.notifier } in
      reload-Lives to w.file w rest d' e m (kept-IsSimulated d d' m refl (λ h. h) refl s) l
  execute-Lives w Command.shutdown rest d e (m, s, l) =
      plain-Lives Command.shutdown rest d d e m s l
  execute-Lives w c rest d e (m, s, l) =
      plain-Lives c rest d (effect o w c d e) e m (effect-IsSimulated o w c d e m s) l
