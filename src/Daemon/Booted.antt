-- ===== src/Daemon/Booted.antt =====
-- The start of src/main.rs (`run`): the engine's first commands, the mode and the cycle of a previous run.
use ampered.Prelude.{
  sym, subst, ◌≡◌, refl, arith, Bool, true, false, not, ◌&&◌, List, ◌++◌, Option, none, some,
  String,
}
use ampered.Config.Sections.{Config}
use ampered.Core.Types.{no_stages, Engine, Command, Event, State, PowerSnapshot}
use ampered.Core.Handle.{handle, dispatch}
use ampered.Core.Cycle.{resume_cycle}
use ampered.Core.Modes.{new, start, restore_manual_mode}
use ampered.Core.Machine.{Machine, perform, perform-append}
use ampered.Core.Life.{IsFresh, Life}
use ampered.Logind.Saved.{load_manual_mode, SavedState, ModeFile}
use ampered.Daemon.State.{Outside}
use ampered.Daemon.Loop.{boot, with_manual, restored, picked_up, was_in_cycle}

-- The machine before the daemon starts.
abbrev pub fresh : Machine
fresh = record {
  screen_on = true;
  dimmed = false;
  alarm = false;
  grace_timer = false;
  window_timer = false;
  retry_timer = false;
  stages = no_stages;
}

-- The engine before anything happens.
record IsCalm (e : Engine) : Type 0 where
  state : e.state ≡ State.active
  pending : e.pending_sleep ≡ false
  failures : e.sleep_failures ≡ 0

module _ {R : Type 0} (o : Outside R) where
  abbrev Begins : Engine → Type 0
  Begins e = Life o.humantime e (perform (start e) fresh) × IsCalm e

  restored-Begins :
      (e : Engine) (file : ModeFile) (r : Engine × Bool) (writable : Bool)
      → Begins r.0
      → Begins (restored e file r writable).0
  unfolding restored
  restored-Begins e file (e', true) writable h = h
  restored-Begins e file (e', false) writable h = h

  with_manual-Begins :
      (c : Config) (p : PowerSnapshot) (file : ModeFile) (writable : Bool) (name : Option String)
      → Begins (with_manual (new c p) file writable name).0
  unfolding with_manual new restore_manual_mode
  with_manual-Begins c p file writable none =
      let lit : IsFresh fresh = record { lit = refl; bright = refl; unarmed = refl } in
      (Life.boot c p fresh lit, record { state = refl; pending = refl; failures = refl })
  with_manual-Begins c p file writable (some name) =
      let lit : IsFresh fresh = record { lit = refl; bright = refl; unarmed = refl } in
      restored-Begins (new c p) file (restore_manual_mode (new c p) name) writable
        (Life.boot_manual c p name fresh lit, ground arith)

  -- The second part of the start: hibernation is looked up, and the cycle of a previous run goes on.
  picked_up-Life :
      (again : Bool) (e : Engine) (cs : List Command)
      → Life o.humantime e (perform cs fresh)
      → IsCalm e
      → let (e', cs') = picked_up again (e, cs) in Life o.humantime e' (perform cs' fresh)
  unfolding picked_up
  picked_up-Life false e cs l c = l
  picked_up-Life true e cs l c =
      let (e', more) = resume_cycle e in
      subst (Life o.humantime e') (sym (perform-append cs more fresh))
        (Life.resumed l c.state c.pending c.failures)

  hibernate-IsCalm :
      (available : Bool) (e : Engine)
      → IsCalm e
      → IsCalm (handle o.humantime (Event.hibernate_available available) e).0
  unfolding handle dispatch
  hibernate-IsCalm available e c = record {
    state = c.state;
    pending = c.pending;
    failures = c.failures;
  }

  pub boot-Life :
      (config : Config) (power : PowerSnapshot) (hibernate : Bool) (file : ModeFile)
      (writable : Bool) (saved : Option SavedState)
      → let b = boot o.humantime config power hibernate file writable saved in
        Life o.humantime b.0.0 (perform b.0.1 fresh)
  unfolding boot
  boot-Life config power hibernate file writable saved =
      let e = (with_manual (new config power) file writable (load_manual_mode file)).0 in
      let (l, c) = with_manual-Begins config power file writable (load_manual_mode file) in
      let event = Event.hibernate_available hibernate in
      let (e', commands) = handle o.humantime event e in
      picked_up-Life (config.server.enabled && not power.ac && was_in_cycle saved) e'
        (start e ++ commands)
        (subst (Life o.humantime e') (sym (perform-append (start e) commands fresh))
          (Life.event event l refl refl))
        (hibernate-IsCalm hibernate e c)
