-- ===== src/Tests/Devices.antt =====
-- The theorems on the devices and timers at concrete values (src/backlight.rs, src/power/supply.rs,
-- src/sleep/planner.rs, src/timers.rs).
use ampered.Prelude.{◌≤◌, ◌≡◌, ◌≢◌, refl, arith, min, max, true, false, [], ◌∷◌, none, some}
use ampered.Config.Durations.{from_millis}
use ampered.Core.Types.{TimerId, PowerSnapshot}
use ampered.Backlight.Levels.{raw_from_percent, target_for, interpolate}
use ampered.Backlight.Scale.{interpolate_bounds}
use ampered.Backlight.Controller.{Controller, Device, Dimming, settle, dim_to, restore}
use ampered.Backlight.Restore.{IsUsable, dim_target}
use ampered.Backlight.RoundTrip.{restore-dim_to, restore-overrides}
use ampered.Power.Supply.{Supply, polls}
use ampered.Power.Tracking.{Tracks, follow, last_read, polls-Tracks}
use ampered.Timers.Table.{Timers, fired, start}
use ampered.Timers.Stale.{AreStarted, start-fired}

interpolate_bounds_example :
    (min 900 187 ≤ interpolate 900 187 3 15)
    × (interpolate 900 187 3 15 ≤ max 900 187)
    × (interpolate 900 187 15 15 ≡ 187)
interpolate_bounds_example =
    interpolate_bounds 900 187 3 15 (omega arith) (omega arith) (omega arith) (omega arith)
      (omega arith)

abbrev panel : Device
panel = record {
  name = "intel_backlight";
  most = 937;
  brightness = 900;
  readable = true;
  writable = true;
}

abbrev lit : Controller
lit = record {
  sink = some panel;
  device = "";
  state = Dimming.active;
  pre_dim = none;
  written = 0;
  min_percent = 1;
  transition = from_millis 250;
  fade = none;
  complained = false;
}

lit-IsUsable : IsUsable lit panel
lit-IsUsable = record {
  attached = refl;
  readable = refl;
  writable = refl;
  small = omega arith;
  short = omega arith;
}

restore-dim_to_example :
    let c' = settle (restore (settle (dim_to 20 lit))) in
    (c'.sink ≡ some panel) × (c'.state ≡ Dimming.active) × (c'.pre_dim ≡ none)
restore-dim_to_example = restore-dim_to lit panel 20 lit-IsUsable refl

-- At 100 of 937, below the target of the dim, with 187 left over from an earlier dim.
abbrev low : Controller
low = record lit { sink = some (record panel { brightness = 100 }); written = 187 }

low-IsUsable : IsUsable low (record panel { brightness = 100 })
low-IsUsable = record {
  attached = refl;
  readable = refl;
  writable = refl;
  small = omega arith;
  short = omega arith;
}

low_target : dim_target low (record panel { brightness = 100 }) 20 ≡ 100
unfolding target_for raw_from_percent
low_target = ground arith

restore-overrides_example :
    (settle (
      restore
        (record (settle (dim_to 20 low)) { sink = some (record panel { brightness = 187 }) }))).sink
    ≡ some (record panel { brightness = 100 })
restore-overrides_example =
    restore-overrides low (record panel { brightness = 100 }) 20 low-IsUsable refl low_target
      (omega arith) (λ e. omega arith)

abbrev plugged : PowerSnapshot
plugged = record { ac = true; battery = some 80; batteries = "BAT0" ∷ [] }

abbrev unplugged : PowerSnapshot
unplugged = record { ac = false; battery = some 79; batteries = "BAT0" ∷ [] }

abbrev supply : Supply
supply = record { refreshes = []; previous = plugged; latest = plugged; readable = true }

polls-Tracks_example :
    Tracks
      (follow (polls (none ∷ (some unplugged ∷ [])) supply).1 plugged)
      (last_read (none ∷ (some unplugged ∷ [])) supply.previous)
polls-Tracks_example = polls-Tracks (none ∷ (some unplugged ∷ [])) supply plugged (refl, λ h. refl)

-- The grace timer was started as the third, and its fire of the second start is on the channel.
abbrev timers : Timers
timers = record {
  fired = record { timer = TimerId.grace; generation = 2 } ∷ [];
  next_generation = 3;
  running = record { timer = TimerId.grace; deadline = 500; generation = 3 } ∷ [];
}

timers-AreStarted : AreStarted timers
timers-AreStarted = record { fires = (omega arith, tt); table = (omega arith, tt) }

start-fired_example : (fired (start TimerId.grace 0 60 timers)).0 ≢ some TimerId.grace
start-fired_example = start-fired TimerId.grace 0 60 timers timers-AreStarted (omega arith)
