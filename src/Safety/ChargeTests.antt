-- ===== src/Safety/ChargeTests.antt =====
-- A charge with two samples.
use nipxi.Prelude.{ℕ, Bool, true, false, none, some, List, [], ◌∷◌}
use nipxi.Prelude.Int.{ℤ, pos}
use nipxi.Hardware.Smu.{Smu}
use nipxi.Hardware.DeviceTests.{Output}
use nipxi.Safety.Monitor.{SafetyMonitor, finite}
use nipxi.Safety.ChargeCycle.{Settings, Round, Course}

abbrev monitor : SafetyMonitor
monitor = record {
  s = record {
    bat_voltage_max = pos 4700;
    bat_voltage_min = pos 3500;
    bat_current_max = pos 1000;
    bat_temp_max_c = pos 45000;
    zero_current_threshold_a = pos 10;
  };
  battery_cfg = none;
}

abbrev settings : Settings
settings = record {
  charge_current_a = pos 500;
  charge_voltage_v = pos 4200;
  charge_cutoff_a = pos 50;
  charge_timeout_s = pos 7200;
}

abbrev round_at : ℕ → ℕ → ℕ → Round
round_at elapsed voltage current = record {
  cancelled_at_check = false;
  elapsed = pos elapsed;
  sample =
      some
        record { voltage_v = some (finite (pos voltage)); current_a = some (finite (pos current)) };
  collector_raises = false;
  cancelled_in_sleep = false;
}

abbrev charging : List Round
charging = round_at 1 4000 500 ∷ round_at 2 4200 40 ∷ []

abbrev course : Course
course = record { cancelled_before = false; cancelled_in_stabilization = false; rounds = charging }

abbrev configure : ℤ → ℤ → Smu Output → Bool × Smu Output
configure current_a limit smu = (true, smu)

abbrev enable : Smu Output → Bool × Smu Output
enable smu = (true, record smu { session = some (0, true) })
