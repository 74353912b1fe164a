-- ===== src/Safety/SafetyTests.antt =====
-- Limits, shutdowns and guarded operations on small inputs.
use nipxi.Prelude.{ℕ, ◌≡◌, refl, Bool, false, Option, none, some, []}
use nipxi.Prelude.Int.{pos}
use nipxi.Prelude.Exec.{err}
use nipxi.Hardware.Smu.Shutdown.{IsOff}
use nipxi.Hardware.DeviceTests.{
  Output, small_session, small_session_truthful, output_on, enabled_smu, small_net,
  small_net_truthful, energized, one_relay,
}
use nipxi.Safety.Monitor.{SafetyMonitor}
use nipxi.Safety.EmergencyStop.{
  emergency_stop, safe_cancel_shutdown, KeepsOutput, emergency_stop-IsSafe,
}
use nipxi.Safety.Guard.{Exception, safety_violation, Op, Station, StorageCall, run_guarded}
use nipxi.Safety.Guard.Bookkeeping.{IsShutDown, run_guarded-IsShutDown}

-- Settings in thousandths, and a battery that may be charged with 500 and discharged with 800.
abbrev pub monitor : SafetyMonitor
monitor = record {
  s = record {
    bat_voltage_max = pos 4700;
    bat_voltage_min = pos 3500;
    bat_current_max = pos 1000;
    bat_temp_max_c = pos 45000;
    zero_current_threshold_a = pos 10;
  };
  battery_cfg = some record {
    voltage_max_v = some (pos 4200);
    voltage_min_v = none;
    max_temp_c = none;
    max_charge_current_a = some (pos 500);
    max_discharge_current_a = some (pos 800);
  };
}

abbrev pub small_keeps : KeepsOutput small_session small_net output_on
small_keeps = record {
  is_dc_current = λ s. refl;
  read = λ _ s. refl;
  write_zero = λ _ s. refl;
  commit = λ s. refl;
}

emergency_stop-IsSafe_example :
    ((emergency_stop small_session small_net enabled_smu one_relay).output_critical ≡ false
      → IsOff output_on (emergency_stop small_session small_net enabled_smu one_relay).smu.session)
    × ((emergency_stop small_session small_net enabled_smu one_relay).relay_critical ≡ false
        → energized
            (emergency_stop small_session small_net enabled_smu one_relay).relay_matrix.module_state
          ≡ 0)
    × (safe_cancel_shutdown small_session small_net enabled_smu one_relay
        ≡ emergency_stop small_session small_net enabled_smu one_relay)
emergency_stop-IsSafe_example =
    emergency_stop-IsSafe small_session small_net output_on small_keeps energized
      small_session_truthful small_net_truthful enabled_smu one_relay

abbrev pub station : Station Output Bool
station = record {
  drivers = record { smu = enabled_smu; relay = one_relay };
  records = [];
  readings = 0;
}

-- An operation that ends with a safety violation.
abbrev violating : Op Output Bool ℕ
violating st = (err safety_violation, st)

-- A database that can be written.
abbrev healthy : StorageCall → Option Exception
healthy _ = none

run_guarded-IsShutDown_example :
    IsShutDown small_session small_net output_on energized false station.drivers
      (run_guarded small_session small_net healthy none violating station).1.drivers
run_guarded-IsShutDown_example =
    run_guarded-IsShutDown small_session small_net output_on energized small_keeps
      small_session_truthful small_net_truthful healthy none violating station safety_violation refl
      refl
