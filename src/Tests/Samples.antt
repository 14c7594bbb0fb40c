-- ===== src/Tests/Samples.antt =====
-- A configuration with two modes and the server cycle, as docs/04-configuration.md writes one.
use ampered.Prelude.{ℕ, true, false, [], ◌∷◌, none, some, String}
use ampered.Config.Durations.{Duration, from_secs, from_millis}
use ampered.Config.Sections.{
  Config, IdleFallback, DisplayBackend, Mode, SleepMethod, ServerTrigger, CriticalAction,
  RtcBackend,
}
use ampered.Core.Types.{Engine, State, ModeSelection, PowerSnapshot, Stages}
use ampered.Core.Machine.{Machine}

abbrev pub humantime : Duration → String
humantime d = "10m"

abbrev pub performance : Mode
performance = record {
  platform_profile = some "performance";
  cpu_governor = none;
  epp = none;
  dim_after = from_secs 300;
  screen_off_after = from_secs 600;
  sleep_after = 0;
  sysfs = [];
}

abbrev pub powersave : Mode
powersave = record {
  platform_profile = some "low-power";
  cpu_governor = some "powersave";
  epp = none;
  dim_after = from_secs 60;
  screen_off_after = from_secs 120;
  sleep_after = from_secs 600;
  sysfs = [];
}

abbrev pub config : Config
config = record {
  general = record { log_level = "info"; socket = "/run/ampered.sock"; socket_group = "wheel" };
  idle = IdleFallback.off;
  backlight = record {
    device = "";
    dim_percent = 20;
    transition = from_millis 250;
    min_percent = 1;
  };
  display = record { backend = DisplayBackend.wlr; off_command = none; on_command = none };
  modes = ("performance", performance) ∷ ("powersave", powersave) ∷ [];
  auto_mode = record {
    enabled = true;
    on_ac = "performance";
    on_battery = "powersave";
    low_battery_percent = 20;
    on_low_battery = "powersave";
  };
  sleep = record {
    method = SleepMethod.suspend;
    respect_inhibitors = true;
    sleep_retry = from_secs 60;
  };
  server = record {
    enabled = true;
    trigger = ServerTrigger.ac_lost;
    grace_period = from_secs 300;
    check_interval = from_secs 1800;
    awake_window = from_secs 60;
    alarm_slack = from_secs 60;
    battery_critical_percent = 10;
    critical_action = CriticalAction.poweroff;
    rtc_backend = RtcBackend.wakealarm;
    rtc_device = "rtc0";
    resume_hook = none;
  };
}

-- A battery at a charge, with the charger away.
abbrev pub discharging : ℕ → PowerSnapshot
discharging percent = record { ac = false; battery = some percent; batteries = "BAT0" ∷ [] }

abbrev pub engine : State → Engine
engine state = record {
  config = config;
  state = state;
  mode = ModeSelection.auto "powersave";
  power = discharging 50;
  low = false;
  inhibits = [];
  next_inhibit_id = 1;
  external = [];
  pending_sleep = false;
  suspend_from = State.active;
  idle_connected = true;
  hibernate_available = true;
  sleep_failures = 0;
  interrupted = false;
}

abbrev pub saving : Stages
saving = record {
  dim = some (from_secs 60);
  screen_off = some (from_secs 120);
  sleep = some (from_secs 600);
}

abbrev pub machine : Machine
machine = record {
  screen_on = true;
  dimmed = false;
  alarm = false;
  grace_timer = false;
  window_timer = false;
  retry_timer = false;
  stages = saving;
}
