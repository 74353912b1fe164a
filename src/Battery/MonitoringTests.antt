-- ===== src/Battery/MonitoringTests.antt =====
-- A battery watched for two rounds, with an NTC that is there in the second, until the operator stops.
use nipxi.Prelude.{ℕ, ◌≡◌, ◌-◌, ◌*◌, refl, Bool, true, false, none, some, List, [], ◌∷◌}
use nipxi.Prelude.Int.{ℤ, pos, pos_part}
use nipxi.Hardware.SourcingTests.{supplying}
use nipxi.Hardware.DeviceTests.{one_relay}
use nipxi.Safety.Monitor.{check_temperature}
use nipxi.Safety.Guard.{Station, cancelled}
use nipxi.Safety.SafetyTests.{monitor}
use nipxi.Battery.Diagnostics.{leb_ℤ}
use nipxi.Battery.Temperature.{
  absent, classify_ntc_presence, temperature_of, ntc_voltage_to_celsius,
}
use nipxi.Battery.Monitoring.{
  MonitorRound, NtcReading, ntc_voltage, no_voltages, add_voltage, monitor_loop,
}
use nipxi.Battery.Monitoring.Watch.{all_within, monitor_loop-all_within}

-- 25 degrees at 2.5 V
abbrev linear : ℤ → ℤ
linear v = pos (100000 - 30 * pos_part v)

abbrev round_of : ℕ → NtcReading → Bool → MonitorRound
round_of v ntc stopped = record {
  cancelled_at_check = false;
  dmm_voltage = some (pos v);
  ntc = ntc;
  log_raises = false;
  record_raises = false;
  cancelled_in_sleep = stopped;
}

abbrev rounds : List MonitorRound
rounds =
    round_of 4000 (ntc_voltage (pos 20)) false ∷ round_of 3990 (ntc_voltage (pos 2500)) true ∷ []

abbrev station : Station Bool Bool
station = record {
  drivers = record { smu = supplying; relay = one_relay };
  records = [];
  readings = 0;
}

logs_absence : (monitor_loop linear monitor none no_voltages rounds).logged ≡ absent ∷ []
unfolding monitor_loop classify_ntc_presence check_temperature temperature_of ntc_voltage_to_celsius
    leb_ℤ add_voltage
logs_absence = refl

stops : (monitor_loop linear monitor none no_voltages rounds).raised ≡ cancelled
unfolding monitor_loop classify_ntc_presence check_temperature temperature_of ntc_voltage_to_celsius
    leb_ℤ add_voltage
stops = refl

monitor_loop-all_within_example :
    all_within linear monitor
      (monitor_loop linear monitor none no_voltages rounds).stats
      (monitor_loop linear monitor none no_voltages rounds).recorded
    ≡ true
monitor_loop-all_within_example = monitor_loop-all_within linear monitor none no_voltages rounds
