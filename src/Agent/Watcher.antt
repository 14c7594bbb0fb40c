-- ===== src/Agent/Watcher.antt =====
-- The agent's connection to the compositor (src/idle.rs): the globals, the idle notifications and the
-- outputs. An object of the protocol is kept as what was asked of it.
use ampered.Prelude.{
  ℕ, ◌/◌, ◌^◌, ◌-◌, min, Bool, true, false, ◌&&◌, List, [], ◌∷◌, ◌++◌, Option, none, some,
  if◌then◌else◌, ◌==◌,
}
use ampered.Config.Durations.{Duration}
use ampered.Core.Types.{Event, Stage, Stages, get_stage}

-- An output of the registry, with the mode that was set on its power object, if it has one.
pub record Output : Type 0 where
  pub name : ℕ  -- u32
  pub power : Option Bool

-- An idle notification: its stage, and its timeout in milliseconds.
pub record Notification : Type 0 where
  pub stage : Stage
  pub timeout : ℕ  -- u32

pub record Watcher : Type 0 where
  pub seat : Bool
  pub notifier : Bool
  pub notifications : List Notification
  pub wanted : Stages
  pub primary : Option Stage
  pub announced : Bool
  pub outgoing : List Event
  pub power_manager : Bool
  pub outputs : List Output

-- A new connection; the stages that were wanted before it are kept.
unfoldable pub connected : Stages → Watcher
connected stages = record {
  seat = false;
  notifier = false;
  notifications = [];
  wanted = stages;
  primary = none;
  announced = false;
  outgoing = [];
  power_manager = false;
  outputs = [];
}

unfoldable pub switch_all : Bool → List Output → List Output
switch_all on [] = []
switch_all on (o ∷ rest) = record o { power = some on } ∷ switch_all on rest

-- `Watcher::set_screen`.
unfoldable pub set_screen : Bool → Watcher → Watcher
unfolding switch_all
set_screen on w = if w.power_manager then record w { outputs = switch_all on w.outputs } else w

-- The first output of a name is taken off.
without_output : ℕ → List Output → List Output
without_output name [] = []
without_output name (o ∷ rest) =
    let others = without_output name rest in if o.name == name then rest else o ∷ others

unfoldable pub remove_output : ℕ → Watcher → Watcher
unfolding without_output
remove_output name w = record w { outputs = without_output name w.outputs }

-- The milliseconds, as far as the protocol goes.
abbrev pub to_timeout : Duration → ℕ
to_timeout after = min (after / 10 ^ 6) (2 ^ 32 - 1)

unfoldable pub notification_for : Stage → Option Duration → List Notification
notification_for stage none = []
notification_for stage (some after) = record { stage = stage; timeout = to_timeout after } ∷ []

-- The notifications for some stages, in their order.
unfoldable pub notifications_for : Stages → List Notification
unfolding notification_for get_stage
notifications_for stages =
    notification_for Stage.dim (get_stage stages Stage.dim)
    ++ (notification_for Stage.screen_off (get_stage stages Stage.screen_off)
        ++ notification_for Stage.sleep (get_stage stages Stage.sleep))

-- The stage of the first notification is the primary one.
abbrev pub first_stage : List Notification → Option Stage
first_stage [] = none
first_stage (n ∷ rest) = some n.stage

-- `Watcher::set_stages`: the notifications before are destroyed.
unfoldable pub set_stages : Stages → Watcher → Watcher
unfolding notifications_for
set_stages stages w =
    let cleared : Watcher = record w { wanted = stages; notifications = []; primary = none } in
    if w.seat && w.notifier
    then record cleared {
      notifications = notifications_for stages;
      primary = first_stage (notifications_for stages);
    }
    else cleared

-- The interfaces that the agent binds.
pub data Interface : Type 0 where
  seat idle_notifier power_manager output other : Interface

abbrev pub ready : Watcher → Watcher
ready w = if w.seat && w.notifier then set_stages w.wanted w else w

-- `Global`: a new object of the registry. A second seat is none of ours, like any other interface.
unfoldable pub on_global : ℕ → Interface → Watcher → Watcher
unfolding set_stages
on_global name Interface.seat w = if w.seat then w else ready (record w { seat = true })
on_global name Interface.idle_notifier w = ready (record w {
  notifier = true;
  announced = true;
  outgoing = w.outgoing ++ Event.idle_backend_changed true ∷ [];
})
on_global name Interface.power_manager w = record w { power_manager = true }
on_global name Interface.output w = record w {
  outputs = w.outputs ++ record { name = name; power = none } ∷ [];
}
on_global name Interface.other w = w

unfoldable pub same_stage : Stage → Stage → Bool
same_stage Stage.dim Stage.dim = true
same_stage Stage.screen_off Stage.screen_off = true
same_stage Stage.sleep Stage.sleep = true
same_stage _ _ = false

unfoldable pub is_primary : Option Stage → Stage → Bool
unfolding same_stage
is_primary none stage = false
is_primary (some primary) stage = same_stage primary stage

unfoldable pub on_idled : Stage → Watcher → Watcher
on_idled stage w = record w { outgoing = w.outgoing ++ Event.idle stage ∷ [] }

-- Every stage resumes at once; only the first one speaks.
unfoldable pub on_stage_resumed : Stage → Watcher → Watcher
unfolding is_primary
on_stage_resumed stage w =
    if is_primary w.primary stage
    then record w { outgoing = w.outgoing ++ Event.activity ∷ [] }
    else w

forget_power : ℕ → List Output → List Output
forget_power name [] = []
forget_power name (o ∷ rest) =
    let others = forget_power name rest in
    if o.name == name then record o { power = none } ∷ rest else o ∷ others

-- `Failed`: the compositor gave up on an output.
unfoldable pub on_failed : ℕ → Watcher → Watcher
unfolding forget_power
on_failed name w = record w { outputs = forget_power name w.outputs }
