-- ===== src/Config/GroupTest/Supervised.antt =====
-- utils/validators.py and test_control/safety_monitor.py: a configuration that passes, under a monitor
-- with the limits of its battery.
use nipxi.Prelude.{◌≡◌, inl, inr, Option-cases, none, some, lookup, nat_eq, arith}
use nipxi.Prelude.Exec.{ok, Result-cases}
use nipxi.Prelude.Int.{ℤ, ◌≤ℤ◌, abs}
use nipxi.Safety.Monitor.{
  Float, finite, BatteryCfg, SafetyMonitor, set_battery_limits, safe, Mode, charge, discharge,
  check, current_max,
}
use nipxi.Orchestration.Workers.{Name}
use nipxi.Config.SystemMode.{SystemMode}
use nipxi.Config.Devices.{BatteryConfig, SmuCfg, DeviceTables, hardware_of}
use nipxi.Config.GroupTest.{
  Required, GroupTestConfig, check_stages, resolve, ◌then◌, validate_group_test_config,
  with_charge_mode,
}
use nipxi.Config.GroupTest.Limits.{IsWithinBattery, check_battery_limits_iff}

-- The entry as the monitor reads it.
abbrev pub limits_of : BatteryConfig → BatteryCfg
limits_of cfg = record {
  voltage_max_v = some cfg.voltage_max_v;
  voltage_min_v = some cfg.voltage_min_v;
  max_temp_c = none;
  max_charge_current_a = some cfg.max_charge_current_a;
  max_discharge_current_a = some cfg.max_discharge_current_a;
}

abbrev pub supervised : BatteryConfig → SafetyMonitor → SafetyMonitor
supervised cfg m = set_battery_limits (some (limits_of cfg)) m

check_stages-IsWithinBattery :
    (mode : SystemMode) (smu : SmuCfg) (config c : GroupTestConfig)
    → (check_stages mode config.battery_cfg smu config.setpoints config.required
        then ok record config { setpoints = with_charge_mode config.setpoints })
      ≡ ok c
    → IsWithinBattery c.battery_cfg c.required
unfolding check_stages
check_stages-IsWithinBattery mode smu config c h =
    ground (arith, check_battery_limits_iff config.battery_cfg config.required)

pub validate_group_test_config-IsWithinBattery :
    (mode : SystemMode) (dev : DeviceTables) (group : Name) (c : GroupTestConfig)
    → validate_group_test_config mode dev group ≡ ok c
    → IsWithinBattery c.battery_cfg c.required
unfolding validate_group_test_config
validate_group_test_config-IsWithinBattery mode dev group c h =
    elim (Option-cases (lookup group dev.battery_groups)) [
      | inl absent ↦ ground arith
      | inr (grp, found) ↦ elim (Result-cases (resolve dev grp (hardware_of dev group grp))) [
        | inl (resolved, eq) ↦
            ground (arith, check_stages-IsWithinBattery mode resolved.0 resolved.1 c)
        | inr (failure, eq) ↦ ground arith
      ]
    ]

abbrev pub commanded : Mode → Required → Float
commanded charge r = r.charge_current
commanded discharge r = r.discharge_current

-- For a configuration that is returned, with numbers as setpoints: the monitor with the limits of the
-- battery is satisfied with every voltage from the cutoff to the target of the charge, at a current no
-- larger than the one of the mode, where no temperature is measured.
pub validate_group_test_config-safe :
    (mode : SystemMode) (dev : DeviceTables) (group : Name) (c : GroupTestConfig)
    (m : SafetyMonitor) (op : Mode) (limit v u voltage current : ℤ)
    → validate_group_test_config mode dev group ≡ ok c
    → commanded op c.required ≡ finite limit
    → c.required.charge_voltage ≡ finite v
    → c.required.discharge_cutoff ≡ finite u
    → u ≤ℤ voltage
    → voltage ≤ℤ v
    → abs current ≤ℤ limit
    → check (supervised c.battery_cfg m) (finite voltage) (finite current) none (some op) ≡ safe
unfolding check current_max
validate_group_test_config-safe mode dev group c m charge limit v u voltage current h e ev eu low
      high within =
    ground (arith, validate_group_test_config-IsWithinBattery mode dev group c h)
validate_group_test_config-safe mode dev group c m discharge limit v u voltage current h e ev eu low
      high within =
    ground (arith, validate_group_test_config-IsWithinBattery mode dev group c h)
