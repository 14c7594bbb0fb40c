-- ===== src/Core/Status.antt =====
-- What the engine reports of itself: `server_phase` and `status` (src/core.rs).
use ampered.Prelude.{Bool, List, [], ◌∷◌, Option, none, some, String, if◌then◌else◌}
use ampered.Config.Durations.{Duration, format_duration}
use ampered.Config.Sections.{method_text}
use ampered.Ipc.{StatusData, BacklightInfo, InhibitorInfo, what_text}
use ampered.Core.Types.{State, phase_text, state_text, mode_name, mode_source, Inhibit, Engine}
use ampered.Core.Modes.{stages}
use ampered.Core.Sleep.{sleep_blockers}

phase_of : State → Bool → String
unfolding phase_text
phase_of (State.long_sleep phase) interrupted = phase_text phase
phase_of _ interrupted = if interrupted then "interrupted" else "idle"

unfoldable pub server_phase : Engine → String
unfolding phase_of
server_phase e = phase_of e.state e.interrupted

-- `unwrap_or(Duration::ZERO)`.
abbrev or_zero : Option Duration → Duration
or_zero none = 0
or_zero (some d) = d

no_backlight : BacklightInfo
no_backlight = record { device = none; percent = none; pre_dim = none }

inhibitor_infos : List Inhibit → List InhibitorInfo
unfolding what_text
inhibitor_infos [] = []
inhibitor_infos (i ∷ rest) =
    record { id = i.id; what = what_text i.what; why = i.why; expires = none }
    ∷ inhibitor_infos rest

-- `Engine::status`; `humantime` is the crate's printer of durations.
unfoldable pub status : (Duration → String) → Engine → StatusData
unfolding server_phase no_backlight inhibitor_infos state_text mode_name mode_source method_text
status humantime e = record {
  state = state_text e.state;
  mode = record { name = mode_name e.mode; source = mode_source e.mode };
  power = record {
    ac = e.power.ac;
    battery_percent = e.power.battery;
    low = e.low;
    batteries = e.power.batteries;
  };
  backlight = no_backlight;
  idle = record {
    backend = "ext-idle-notify";
    connected = e.idle_connected;
    stages = record {
      dim = format_duration humantime (or_zero (stages e).dim);
      screen_off = format_duration humantime (or_zero (stages e).screen_off);
      sleep = format_duration humantime (or_zero (stages e).sleep);
    };
  };
  sleep = record { method = method_text e.config.sleep.method; blocked_by = sleep_blockers e };
  server = record { enabled = e.config.server.enabled; phase = server_phase e; next_wake = none };
  inhibitors = inhibitor_infos e.inhibits;
  degraded = [];
}
