-- ===== src/Core/Replies.antt =====
-- Which events are answered, and how often.
use mathlib.Core.List.{append-nil}
use ampered.Prelude.{
  ◌≡◌, refl, Bool, true, false, none, some, String, List, [], ◌∷◌, ◌++◌, arith, count, ◌∙◌, ap,
}
use ampered.Config.Durations.{Duration}
use ampered.Ipc
use ampered.Ipc.{RequestId, Response}
use ampered.Core.Types.{Engine, Command, Event, State}
use ampered.Core.Events.{on_activity, on_ac_changed}
use ampered.Core.Cycle.{cancel_cycle}
use ampered.Core.Handle.{handle, dispatch, announce}
use ampered.Core.Modes.{mode_changed, mode_commands}
use ampered.Core.Sleep.{request_sleep, cancel_pending_sleep}
use ampered.Core.Code.{dispatch_code}
use ampered.Core.Requests.{on_ipc, on_long_sleep}
use ampered.Core.Commands.{
  is_special, announce-routine, on_activity-routine, cancel_cycle-routine, on_ac_changed-routine,
}

-- The requests that a list of commands answers, by a reply or by a reload that carries the request
-- which it will answer.
abbrev pub answered : List Command → List RequestId
answered [] = []
answered (Command.reply id response ∷ cs) = id ∷ answered cs
answered (Command.reload (some id) ∷ cs) = id ∷ answered cs
answered (_ ∷ cs) = answered cs

pub answered-append : (cs ds : List Command) → answered (cs ++ ds) ≡ answered cs ++ answered ds
answered-append [] ds = refl
answered-append (Command.reply id response ∷ cs) ds = ap (λ ids. id ∷ ids) (answered-append cs ds)
answered-append (Command.reload (some id) ∷ cs) ds = ap (λ ids. id ∷ ids) (answered-append cs ds)
answered-append (Command.reload none ∷ cs) ds = answered-append cs ds
answered-append (_ ∷ cs) ds = answered-append cs ds

answered-routine : (cs : List Command) → count is_special cs ≡ 0 → answered cs ≡ []
answered-routine [] h = refl
answered-routine (Command.dim percent ∷ cs) h = absurd (ground arith)
answered-routine (Command.suspend method force ∷ cs) h = absurd (ground arith)
answered-routine (Command.power_off ∷ cs) h = absurd (ground arith)
answered-routine (Command.shutdown ∷ cs) h = absurd (ground arith)
answered-routine (Command.reply id response ∷ cs) h = absurd (ground arith)
answered-routine (Command.reload to ∷ cs) h = absurd (ground arith)
answered-routine (_ ∷ cs) h = answered-routine cs h

-- A routine part in front of a list of commands answers nothing.
behind_routine :
    (cs ds : List Command) → count is_special cs ≡ 0 → answered (cs ++ ds) ≡ answered ds
behind_routine cs ds h = rw (answered-append cs ds, answered-routine cs h)

answered-handle :
    (humantime : Duration → String) (event : Event) (e : Engine)
    → answered (handle humantime event e).1 ≡ answered (dispatch humantime event e).1
unfolding handle
answered-handle humantime event e =
    let (e', commands) = dispatch humantime event e in
    answered-append commands (announce e.state e')
    ∙ rw (answered-routine (announce e.state e') (announce-routine e.state e')) ((append-nil _))

long_sleep-answered :
    (id : RequestId) (cancel : Bool) (state : State) (e : Engine)
    → e.state ≡ state
    → answered (on_long_sleep id cancel e).1 ≡ id ∷ []
unfolding on_long_sleep cancel_pending_sleep
long_sleep-answered id cancel (State.long_sleep phase) e h = ground (
  arith,
  behind_routine (cancel_cycle phase e).1 (Command.reply id Response.ok ∷ [])
      (cancel_cycle-routine phase e),
)
long_sleep-answered id cancel _ e h = ground arith

dispatch-answered :
    (humantime : Duration → String) (e : Engine) (id : RequestId) (request : Ipc.Request)
    → answered (dispatch humantime (Event.ipc id request) e).1 ≡ id ∷ []
unfolding dispatch on_ipc
dispatch-answered humantime e id Ipc.Request.undim =
    behind_routine (on_activity e).1 _ (on_activity-routine e)
dispatch-answered humantime e id (Ipc.Request.screen Ipc.ScreenState.on) =
    behind_routine (on_activity e).1 _ (on_activity-routine e)
dispatch-answered humantime e id (Ipc.Request.screen Ipc.ScreenState.off) = ground arith
dispatch-answered humantime e id (Ipc.Request.long_sleep cancel) =
    long_sleep-answered id cancel e.state e refl
dispatch-answered humantime e id (Ipc.Request.mode name) =
    unfold mode_changed mode_commands in ground arith
dispatch-answered humantime e id (Ipc.Request.sleep force) = unfold request_sleep in ground arith
dispatch-answered humantime e id _ = ground arith

-- Every request, whatever the engine's state, is answered exactly once, and the answer names that
-- request and no other. For a reload the answer is the reload that carries the request.
pub handle-answered :
    (humantime : Duration → String) (e : Engine) (id : RequestId) (request : Ipc.Request)
    → answered (handle humantime (Event.ipc id request) e).1 ≡ id ∷ []
handle-answered humantime e id request =
    answered-handle humantime (Event.ipc id request) e ∙ dispatch-answered humantime e id request

abbrev pub is_request : Event → Bool
is_request (Event.ipc id request) = true
is_request _ = false

dispatch-answered_none :
    (humantime : Duration → String) (e : Engine) (event : Event)
    → is_request event ≡ false
    → answered (dispatch humantime event e).1 ≡ []
unfolding dispatch_code
dispatch-answered_none humantime e Event.activity h =
    answered-routine (on_activity e).1 (on_activity-routine e)
dispatch-answered_none humantime e (Event.ac_changed ac) h =
    answered-routine (on_ac_changed ac e).1 (on_ac_changed-routine ac e)
dispatch-answered_none humantime e (Event.idle stage) h = ground arith
dispatch-answered_none humantime e _ h = ground arith

-- An event that is no request is not answered: the engine never replies to a request that it was
-- not given.
pub handle-answered_none :
    (humantime : Duration → String) (e : Engine) (event : Event)
    → is_request event ≡ false
    → answered (handle humantime event e).1 ≡ []
handle-answered_none humantime e event h =
    answered-handle humantime event e ∙ dispatch-answered_none humantime e event h
