-- ===== src/Backlight/Controller.antt =====
-- The controller of src/backlight.rs: dimming, restoring and the fade between two levels. The fade
-- task is explicit: `fade_step` is one round of its loop, which the scheduler may run between any two
-- operations, and `stop_fade` waits for a task that has been told to stop.
use ampered.Prelude.{
  ℕ, zero, suc, ◌+◌, ◌-◌, ◌/◌, min, max, Bool, true, false, not, Option, none, some, String, str_eq,
  if◌then◌else◌, ◌==◌, ltb,
}
use ampered.Config.Durations.{Duration, is_zero, from_millis}
use ampered.Config.Sections.{Backlight}
use ampered.Ipc.{BacklightInfo}
use ampered.Backlight.Levels.{u32, to_percent, interpolate, target_for}

-- A device of `/sys/class/backlight`: what it holds, and whether it can be read and written.
pub record Device : Type 0 where
  pub name : String
  pub most : ℕ
  pub brightness : ℕ
  pub readable : Bool
  pub writable : Bool

pub data Dimming : Type 0 where
  active dimmed : Dimming

pub record Fade : Type 0 where
  pub from : ℕ
  pub to : ℕ
  pub step : ℕ
  pub steps : ℕ

pub record Controller : Type 0 where
  pub sink : Option Device
  pub device : String
  pub state : Dimming
  pub pre_dim : Option ℕ
  pub written : ℕ
  pub min_percent : ℕ
  pub transition : Duration
  pub fade : Option Fade
  pub complained : Bool

-- `Controller::new`.
unfoldable pub new : Backlight → Option Device → Controller
new config sink = record {
  sink = sink;
  device = config.device;
  state = Dimming.active;
  pre_dim = none;
  written = 0;
  min_percent = config.min_percent;
  transition = config.transition;
  fade = none;
  complained = false;
}

unfoldable pub read : Device → Option ℕ
read d = if d.readable then some d.brightness else none

unfoldable pub store : Device → ℕ → Device
store d value = if d.writable then record d { brightness = value } else d

unfoldable pub stop_fade : Controller → Controller
stop_fade c = record c { fade = none }

-- `Controller::write`: the level counts as ours also where the device refuses it.
unfoldable pub write : Controller → Device → ℕ → Controller
unfolding store
write c d value = record c { written = value; sink = some (store d value) }

abbrev step_length : Duration
step_length = from_millis 16

-- The number of steps of a fade; `as_millis` counts whole milliseconds.
unfoldable pub fade_steps : Duration → ℕ
fade_steps transition =
    if is_zero transition
    then 1
    else u32 (max (transition / from_millis 1 / (step_length / from_millis 1)) 1)

-- `fade_to`: nothing to do, one write, or a task.
unfoldable pub fade_to : Controller → Device → ℕ → ℕ → Controller
unfolding stop_fade write fade_steps
fade_to c d from to =
    if from == to
    then stop_fade c
    else if fade_steps c.transition == 1
    then write (stop_fade c) d to
    else record c {
      written = to;
      fade = some (record { from = from; to = to; step = 1; steps = fade_steps c.transition });
    }

step_of : Controller → Option Device → Option Fade → Controller
unfolding write stop_fade
step_of c none fade = c
step_of c (some d) none = c
step_of c (some d) (some f) =
    let value = interpolate f.from f.to f.step f.steps in
    let c' = write c d value in
    if ltb f.steps f.step
    then stop_fade c
    else if not d.writable
    then stop_fade c'
    else record c' { fade = some (record f { step = f.step + 1 }) }

-- One round of the fade task, if there is one.
unfoldable pub fade_step : Controller → Controller
unfolding step_of
fade_step c = step_of c c.sink c.fade

dim_from : Controller → Device → ℕ → Option ℕ → Controller
dim_from c d percent none = c
dim_from c d percent (some current) =
    let target = min (target_for d.most c.min_percent percent) current in
    fade_to (record c { pre_dim = some current; state = Dimming.dimmed }) d current target

dim_in : Dimming → Controller → Device → ℕ → Controller
unfolding dim_from read stop_fade
dim_in Dimming.dimmed c d percent = c
dim_in Dimming.active c d percent = dim_from (stop_fade c) d percent (read d)

dim_on : Option Device → Controller → ℕ → Controller
unfolding dim_in
dim_on none c percent = record c { complained = true }
dim_on (some d) c percent = dim_in c.state c d percent

-- `dim_to`: dims to a percentage, once, and never brightens.
unfoldable pub dim_to : ℕ → Controller → Controller
unfolding dim_on
dim_to percent c = dim_on c.sink c percent

restore_from : Controller → Device → ℕ → Option ℕ → Controller
restore_from c d target none = c
restore_from c d target (some current) =
    if not (current == c.written) then c else fade_to c d current target

restore_to : Option ℕ → Controller → Device → Controller
unfolding restore_from read
restore_to none c d = c
restore_to (some target) c d = restore_from c d target (read d)

restore_in : Dimming → Controller → Device → Controller
unfolding restore_to stop_fade
restore_in Dimming.active c d = c
restore_in Dimming.dimmed c d =
    restore_to c.pre_dim (record (stop_fade c) { pre_dim = none; state = Dimming.active }) d

restore_on : Option Device → Controller → Controller
unfolding restore_in
restore_on none c = c
restore_on (some d) c = restore_in c.state c d

-- `restore`: back to the level before the dim, unless somebody else changed it in the meantime.
unfoldable pub restore : Controller → Controller
unfolding restore_on
restore c = restore_on c.sink c

-- `reconfigure`; `found` is what the discovery of the new device yields.
unfoldable pub reconfigure : Backlight → Option Device → Controller → Controller
unfolding stop_fade
reconfigure config found c =
    let c' : Controller = record c {
      min_percent = config.min_percent;
      transition = config.transition;
    } in
    if str_eq config.device c.device then c' else record (stop_fade c') {
      device = config.device;
      sink = found;
      pre_dim = none;
      state = Dimming.active;
      complained = false;
    }

percent_of : ℕ → Option ℕ → Option ℕ
unfolding to_percent
percent_of most none = none
percent_of most (some raw) = some (to_percent raw most)

info_of : Option Device → Option ℕ → BacklightInfo
unfolding percent_of read
info_of none pre_dim = record { device = none; percent = none; pre_dim = none }
info_of (some d) pre_dim = record {
  device = some d.name;
  percent = percent_of d.most (read d);
  pre_dim = percent_of d.most pre_dim;
}

-- `Controller::info`.
unfoldable pub info : Controller → BacklightInfo
unfolding info_of
info c = info_of c.sink c.pre_dim

remaining : Option Fade → ℕ
remaining none = 0
remaining (some f) = f.steps + 1 - f.step

unfoldable pub rounds : ℕ → Controller → Controller
rounds zero c = c
rounds (suc n) c = rounds n (fade_step c)

-- `settle`: waits for the running fade to finish.
unfoldable pub settle : Controller → Controller
unfolding remaining stop_fade
settle c = stop_fade (rounds (remaining c.fade) c)
