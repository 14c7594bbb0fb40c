-- ===== src/Core/Requests.antt =====
-- The handlers of the requests that come over IPC (src/core.rs).
use ampered.Prelude.{
  ℕ, min, Bool, false, not, ◌&&◌, List, [], ◌∷◌, ◌++◌, some, String, str_eq, if◌then◌else◌, concat,
  join, decimal,
}
use ampered.Config.Durations.{Duration, is_zero}
use ampered.Config.Sections.{contains_key, keys}
use ampered.Ipc.{RequestId, max_inhibit_ttl, InhibitWhat, is_on, Request, Response}
use ampered.Core.Types.{
  State, phase_text, is_awake, ModeSelection, mode_name, mode_source, TimerId, Command, Engine,
  Outcome, u64_add, emit_after,
}
use ampered.Core.Modes.{auto_mode_name, mode_changed}
use ampered.Core.Sleep.{sleep_blockers, is_blocked, request_sleep}
use ampered.Core.Cycle.{enter_grace, cancel_cycle}
use ampered.Core.Events.{on_activity, has_inhibit, remove_inhibit}
use ampered.Core.Status.{status}

abbrev reply_ok : RequestId → List Command
reply_ok id = Command.reply id Response.ok ∷ []

abbrev refuse : RequestId → List String → Engine → Outcome
refuse id message e = (e, Command.reply id (Response.error (concat message)) ∷ [])

unfoldable pub on_set_mode : RequestId → String → Engine → Outcome
unfolding auto_mode_name
on_set_mode id name e =
    if str_eq name "auto"
    then chosen (ModeSelection.auto (auto_mode_name e))
    else if not (contains_key e.config.modes name)
    then refuse id ("no such mode: " ∷ (name ∷ [])) e
    else chosen (ModeSelection.manual name)
  where
    chosen : ModeSelection → Outcome
    chosen mode = let e' : Engine = record e { mode = mode } in (e', mode_changed e' ++ reply_ok id)

dim_in : State → Engine → Outcome
dim_in State.active e =
    (record e { state = State.dimmed }, Command.dim e.config.backlight.dim_percent ∷ [])
dim_in _ e = (e, [])

screen_off_in : State → Engine → Outcome
screen_off_in State.active e = (record e { state = State.screen_off }, Command.screen false ∷ [])
screen_off_in State.dimmed e = (record e { state = State.screen_off }, Command.screen false ∷ [])
screen_off_in _ e = (e, [])

-- `amperedctl sleep` outside the cycle.
explicit_sleep : RequestId → Bool → Engine → Outcome
unfolding request_sleep
explicit_sleep id force e =
    if not force && is_blocked (sleep_blockers e)
    then refuse id ("blocked by inhibitors: " ∷ (join ", " (sleep_blockers e) ∷ [])) e
    else emit_after (request_sleep force false e) (reply_ok id)

sleep_in : State → RequestId → Bool → Engine → Outcome
unfolding explicit_sleep phase_text
sleep_in (State.long_sleep phase) id force e =
    refuse id
      ("in the long-sleep cycle ("
        ∷ (phase_text phase ∷ ("); cancel it with `amperedctl long-sleep --cancel` first" ∷ [])))
      e
sleep_in _ id force e = explicit_sleep id force e

cancel_in : State → RequestId → Engine → Outcome
unfolding cancel_cycle
cancel_in (State.long_sleep phase) id e = emit_after (cancel_cycle phase e) (reply_ok id)
cancel_in _ id e = refuse id ("not in the long-sleep cycle" ∷ []) e

begin_in : State → RequestId → Engine → Outcome
unfolding enter_grace phase_text is_awake
begin_in (State.long_sleep phase) id e =
    refuse id ("already in the long-sleep cycle (" ∷ (phase_text phase ∷ (")" ∷ []))) e
begin_in state id e =
    if not (is_awake state)
    then refuse id ("cannot start the cycle while going to sleep" ∷ []) e
    else emit_after (enter_grace 0 e) (reply_ok id)

unfoldable pub on_long_sleep : RequestId → Bool → Engine → Outcome
unfolding cancel_in begin_in
on_long_sleep id cancel e =
    if cancel
    then cancel_in e.state id e
    else if not e.config.server.enabled
    then refuse id ("[server] is not enabled" ∷ []) e
    else begin_in e.state id e

unfoldable pub on_inhibit : RequestId → InhibitWhat → String → Duration → Engine → Outcome
on_inhibit request what why ttl e =
    let capped = min ttl max_inhibit_ttl in
    if is_zero capped then refuse request ("ttl must be greater than zero" ∷ []) e else (
      record e {
        next_inhibit_id = u64_add id 1;
        inhibits = e.inhibits ++ record { id = id; what = what; why = why; ttl = capped } ∷ [];
      },
      Command.start_timer (TimerId.inhibit_expiry id) capped
          ∷ (Command.reply request (Response.inhibited id) ∷ []),
    )
  where
    open e use {next_inhibit_id as id}

unfoldable pub on_uninhibit : RequestId → ℕ → Engine → Outcome
unfolding has_inhibit remove_inhibit
on_uninhibit request id e =
    if has_inhibit id e.inhibits
    then (
      record e { inhibits = remove_inhibit id e.inhibits },
      Command.cancel_timer (TimerId.inhibit_expiry id) ∷ reply_ok request,
    )
    else refuse request ("no such inhibitor: " ∷ (decimal id ∷ [])) e

-- `Engine::on_ipc`; `humantime` is the crate's printer of durations.
unfoldable pub on_ipc : (Duration → String) → RequestId → Request → Engine → Outcome
unfolding on_set_mode dim_in screen_off_in sleep_in on_long_sleep on_inhibit on_uninhibit is_on
    on_activity
on_ipc humantime id Request.status e =
    (e, Command.reply id (Response.status (status humantime e)) ∷ [])
on_ipc humantime id Request.modes e = (
  e,
  Command.reply id (
        Response.modes (record {
          modes = keys e.config.modes;
          current = mode_name e.mode;
          source = mode_source e.mode;
        }))
      ∷ [],
)
on_ipc humantime id (Request.mode name) e = on_set_mode id name e
on_ipc humantime id Request.dim e = emit_after (dim_in e.state e) (reply_ok id)
on_ipc humantime id Request.undim e = emit_after (on_activity e) (reply_ok id)
on_ipc humantime id (Request.screen state) e =
    emit_after (if is_on state then on_activity e else screen_off_in e.state e) (reply_ok id)
on_ipc humantime id (Request.sleep force) e = sleep_in e.state id force e
on_ipc humantime id (Request.long_sleep cancel) e = on_long_sleep id cancel e
on_ipc humantime id (Request.inhibit what why ttl) e = on_inhibit id what why ttl e
on_ipc humantime id (Request.uninhibit inhibit) e = on_uninhibit id inhibit e
on_ipc humantime id Request.reload e = (e, Command.reload (some id) ∷ [])
on_ipc humantime id Request.subscribe e =
    refuse id ("handled by the IPC server, never by the engine" ∷ []) e
on_ipc humantime id Request.agent e =
    refuse id ("handled by the IPC server, never by the engine" ∷ []) e
