-- ===== src/Core/KnownMode.antt =====
-- The mode in effect is one of the config's, if the config was accepted.
use ampered.Prelude.{
  ℕ, ◌≡◌, Bool, true, false, not, String, arith, List, [], ◌∷◌, none, eq_iff, count, count-append,
}
use ampered.Config.Durations.{Duration}
use ampered.Config.Sections.{Config, Mode, contains_key, AutoMode}
use ampered.Config.Validate.{validate, check_auto}
use ampered.Ipc
use ampered.Core.Types.{
  Engine, Event, State, Command, mode_name, PowerSnapshot, Outcome, emit_after,
}
use ampered.Core.Modes.{
  auto_mode_name, select_auto_mode, reapply_auto_mode, first_key, new, mode_commands, mode_changed,
}
use ampered.Core.Sleep.{cancel_pending_sleep}
use ampered.Core.Cycle.{leave_cycle}
use ampered.Core.Events.{on_activity, on_ac_changed}
use ampered.Core.Requests.{on_set_mode, on_ipc}
use ampered.Core.Handle.{handle, dispatch, announce}
use ampered.Core.Code.{handler_code}

abbrev pub IsKnown : Engine → Type 0
IsKnown e = contains_key e.config.modes (mode_name e.mode) ≡ true

-- An accepted config names only modes that it has.
pub check_auto-known :
    (auto : AutoMode) (modes : List (String × Mode))
    → check_auto auto modes ≡ none
    → auto.enabled ≡ true
    → (contains_key modes auto.on_ac ≡ true)
      × (contains_key modes auto.on_battery ≡ true)
      × (contains_key modes auto.on_low_battery ≡ true)
unfolding check_auto
check_auto-known auto modes h k = ground arith

first_key-contained :
    (modes : List (String × Mode)) (name : String)
    → contains_key modes name ≡ true
    → contains_key modes (first_key modes) ≡ true
unfolding contains_key
first_key-contained [] name h = cc
first_key-contained ((key, mode) ∷ rest) name h = ground (arith, eq_iff key key)

auto_mode_name-known :
    (e : Engine)
    → check_auto e.config.auto_mode e.config.modes ≡ none
    → IsKnown e
    → contains_key e.config.modes (auto_mode_name e) ≡ true
unfolding auto_mode_name
auto_mode_name-known e h k = ground (
  arith,
  check_auto-known e.config.auto_mode e.config.modes h,
  first_key-contained e.config.modes (mode_name e.mode) k,
)

abbrev pub HasGoodAuto : Engine → Type 0
HasGoodAuto e = check_auto e.config.auto_mode e.config.modes ≡ none

-- The choice of a mode keeps the mode known.
select_auto_mode-IsKnown : (e : Engine) → HasGoodAuto e → IsKnown e → IsKnown (select_auto_mode e).0
unfolding select_auto_mode
select_auto_mode-IsKnown e h k = ground (arith, auto_mode_name-known e h k)

reapply_auto_mode-IsKnown :
    (e : Engine) → HasGoodAuto e → IsKnown e → IsKnown (reapply_auto_mode e).0
unfolding reapply_auto_mode
reapply_auto_mode-IsKnown e h k = select_auto_mode-IsKnown e h k

leave_cycle-IsKnown : (e : Engine) → HasGoodAuto e → IsKnown e → IsKnown (leave_cycle e).0
unfolding leave_cycle
leave_cycle-IsKnown e h k = select_auto_mode-IsKnown (record e { state = State.active }) h k

-- `ApplyMode` of a mode that the config does not have.
abbrev pub applies_unknown : List (String × Mode) → Command → Bool
applies_unknown modes (Command.apply_mode name) = not (contains_key modes name)
applies_unknown modes _ = false

mode_commands-applied :
    (e : Engine) → IsKnown e → count (applies_unknown e.config.modes) (mode_commands e) ≡ 0
unfolding mode_commands
mode_commands-applied e k = ground arith

-- What a handler owes: the config is left alone, the mode is known, and only known modes are applied.
record Applies (e : Engine) (o : Outcome) : Type 0 where
  config : o.0.config ≡ e.config
  known : IsKnown o.0
  applied : count (applies_unknown e.config.modes) o.1 ≡ 0

reapply_auto_mode-Applies :
    (e : Engine) → HasGoodAuto e → IsKnown e → Applies e (reapply_auto_mode e)
unfolding reapply_auto_mode select_auto_mode mode_changed mode_commands
reapply_auto_mode-Applies e h k = ground (arith, auto_mode_name-known e h k)

leave_cycle-Applies : (e : Engine) → HasGoodAuto e → IsKnown e → Applies e (leave_cycle e)
unfolding leave_cycle select_auto_mode mode_commands
leave_cycle-Applies e h k =
    ground (arith, auto_mode_name-known (record e { state = State.active }) h k)

on_activity-Applies : (e : Engine) → HasGoodAuto e → IsKnown e → Applies e (on_activity e)
unfolding on_activity
on_activity-Applies e h k = grind (arith, leave_cycle-Applies, count-append)

on_ac_changed-Applies :
    (ac : Bool) (e : Engine) → HasGoodAuto e → IsKnown e → Applies e (on_ac_changed ac e)
unfolding on_ac_changed cancel_pending_sleep
on_ac_changed-Applies ac e h k =
    grind (arith, leave_cycle-Applies, reapply_auto_mode-Applies, count-append)

on_set_mode-Applies :
    (e : Engine) (id : ℕ) (name : String)
    → HasGoodAuto e
    → IsKnown e
    → Applies e (on_set_mode id name e)
unfolding on_set_mode mode_changed mode_commands
on_set_mode-Applies e id name h k = ground (arith, auto_mode_name-known e h k)

-- An answer behind an outcome applies nothing.
replied :
    (e : Engine) (o : Outcome) (id : ℕ) (r : Ipc.Response)
    → Applies e o
    → Applies e (emit_after o (Command.reply id r ∷ []))
replied e o id r a = record {
  config = a.config;
  known = a.known;
  applied = ground (
    arith,
    a.applied,
    count-append (applies_unknown e.config.modes) o.1 (Command.reply id r ∷ []),
  );
}

request-Applies :
    (humantime : Duration → String) (e : Engine) (id : ℕ) (request : Ipc.Request)
    → HasGoodAuto e
    → IsKnown e
    → Applies e (on_ipc humantime id request e)
unfolding handler_code
request-Applies humantime e id Ipc.Request.undim h k =
    replied e (on_activity e) id Ipc.Response.ok (on_activity-Applies e h k)
request-Applies humantime e id (Ipc.Request.screen Ipc.ScreenState.on) h k =
    replied e (on_activity e) id Ipc.Response.ok (on_activity-Applies e h k)
request-Applies humantime e id (Ipc.Request.screen Ipc.ScreenState.off) h k = ground arith
request-Applies humantime e id (Ipc.Request.mode name) h k = on_set_mode-Applies e id name h k
request-Applies humantime e id _ h k = grind (arith, leave_cycle-Applies, count-append)

dispatch-Applies :
    (humantime : Duration → String) (event : Event) (e : Engine)
    → HasGoodAuto e
    → IsKnown e
    → Applies e (dispatch humantime event e)
unfolding handler_code
dispatch-Applies humantime Event.activity e h k = on_activity-Applies e h k
dispatch-Applies humantime (Event.ac_changed ac) e h k = on_ac_changed-Applies ac e h k
dispatch-Applies humantime (Event.ipc id request) e h k = request-Applies humantime e id request h k
dispatch-Applies humantime _ e h k =
    grind (arith, leave_cycle-Applies, reapply_auto_mode-Applies, count-append)

announce-applied :
    (modes : List (String × Mode)) (from : State) (e : Engine)
    → count (applies_unknown modes) (announce from e) ≡ 0
unfolding announce
announce-applied modes from e = ground arith

-- Of an accepted config the part that names modes.
validate-auto : (c : Config) → validate c ≡ none → check_auto c.auto_mode c.modes ≡ none
unfolding validate
validate-auto c h = ground arith

-- Under an accepted config and with a known mode in effect, every event leaves the config alone and
-- a known mode in effect, and applies no mode that the config does not have.
pub handle-IsKnown :
    (humantime : Duration → String) (event : Event) (e : Engine)
    → validate e.config ≡ none
    → IsKnown e
    → let (e', commands) = handle humantime event e in
      (e'.config ≡ e.config) × IsKnown e' × (count (applies_unknown e.config.modes) commands ≡ 0)
unfolding handle
handle-IsKnown humantime event e v k =
    let (e', commands) = dispatch humantime event e in
    let a = dispatch-Applies humantime event e (validate-auto e.config v) k in
    (
      a.config,
      a.known,
      omega (
        arith,
        a.applied,
        count-append (applies_unknown e.config.modes) commands (announce e.state e'),
        announce-applied e.config.modes e.state e',
      ),
    )

-- A daemon that boots with an accepted config, which has a mode, puts one of its modes into effect.
pub new-IsKnown :
    (c : Config) (p : PowerSnapshot) (name : String)
    → validate c ≡ none
    → contains_key c.modes name ≡ true
    → IsKnown (new c p)
unfolding new auto_mode_name
new-IsKnown c p name v h = ground (
  arith,
  check_auto-known c.auto_mode c.modes (validate-auto c v),
  first_key-contained c.modes name h,
)
