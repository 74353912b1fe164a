-- ===== src/Config/ConfigTests.antt =====
-- A group that may be charged with 500 up to 4200 and discharged with 500 down to 3500, on an SMU
-- rated for 1000.
use nipxi.Prelude.{◌^◌, true, ◌≡◌, ◌↔◌, refl, none, some, [], ◌∷◌, arith}
use nipxi.Prelude.Int.{ℤ, pos, negsuc}
use nipxi.Prelude.Exec.{ok, err}
use nipxi.Safety.Monitor.{finite, safe, charge, check}
use nipxi.Safety.SafetyTests.{monitor}
use nipxi.Config.SystemMode.{
  mode_value, development, production, named, mode_named, parse_system_mode, get_mode_policy,
  mode_policies, is_recovery_enabled,
}
use nipxi.Config.Devices.{
  seconds, number, BatteryConfig, BatteryGroup, DeviceTables, SmuCfg, TestSetpoints, hardware_of,
}
use nipxi.Config.GroupTest.{
  GroupTestConfig, required_setpoints, resolve, validate_group_test_config, check_stages,
  check_battery_limits, check_smu_limits, check_timeout, check_charge_mode, with_charge_mode,
  group_configuration_error,
}
use nipxi.Config.GroupTest.Limits.{
  IsWithinBattery, IsWithinRating, IsAllowed, IsImplemented, validate_group_test_config_iff,
}
use nipxi.Config.Shipped.{shipped, b1}
use nipxi.Config.Shipped.Groups.{passes, shipped_groups}
use nipxi.Config.GroupTest.Supervised.{supervised, validate_group_test_config-safe}

abbrev half_a_second : ℤ
half_a_second = pos (2 ^ 1073)

abbrev setpoints : TestSetpoints
setpoints = record {
  charge_current_a = some (finite (pos 500));
  charge_voltage_v = some (finite (pos 4200));
  discharge_current_a = some (finite (pos 500));
  discharge_cutoff_v = some (finite (pos 3500));
  charge_timeout_s = some (number (finite half_a_second));
  discharge_timeout_s = none;
  charge_mode = none;
}

abbrev cell : BatteryConfig
cell = record {
  voltage_max_v = pos 4250;
  voltage_min_v = pos 3000;
  max_charge_current_a = pos 500;
  max_discharge_current_a = pos 800;
}

abbrev group : BatteryGroup
group = record {
  relay_matrix = some 1;
  smu = some 2;
  dmm = some 3;
  daq = some 4;
  ntc_daq = none;
  sense_channel = none;
  battery_type = some 5;
  test_setpoints = some setpoints;
  positions = 1 ∷ [];
}

abbrev tables : DeviceTables
tables = record {
  battery_groups = (7, group) ∷ [];
  battery_configs = (5, cell) ∷ [];
  ethernet_devices = (1, 1) ∷ [];
  smu_assignments = (2, record { max_current_a = some (pos 1000) }) ∷ [];
  dmm_configs = (3, 3) ∷ [];
  daq_configs = (4, 4) ∷ [];
  usb_daq_devices = [];
}

abbrev rated : SmuCfg
rated = record { max_current_a = some (pos 1000) }

abbrev config : GroupTestConfig
config = record {
  battery_type = 5;
  setpoints = setpoints;
  required = record {
    charge_current = finite (pos 500);
    charge_voltage = finite (pos 4200);
    discharge_current = finite (pos 500);
    discharge_cutoff = finite (pos 3500);
  };
  battery_cfg = cell;
}

resolved : resolve tables group (hardware_of tables 7 group) ≡ ok (rated, config)
unfolding resolve hardware_of required_setpoints
resolved = refl

validate_group_test_config_iff_example :
    (validate_group_test_config development tables 7
      ≡ ok record config { setpoints = with_charge_mode setpoints })
    ↔ (IsWithinBattery cell config.required
        × IsWithinRating (some (pos 1000)) config.required
        × IsAllowed development (some (number (finite half_a_second)))
        × IsAllowed development none
        × IsImplemented none)
validate_group_test_config_iff_example =
    validate_group_test_config_iff development tables 7 group rated config refl resolved

abbrev returned : GroupTestConfig
returned = record config { setpoints = with_charge_mode setpoints }

passes_all_stages : validate_group_test_config development tables 7 ≡ ok returned
unfolding validate_group_test_config resolve hardware_of required_setpoints check_stages
    check_battery_limits check_smu_limits check_timeout check_charge_mode seconds
passes_all_stages = refl

-- The override of the timeout is refused in production.
refused : validate_group_test_config production tables 7 ≡ err group_configuration_error
unfolding validate_group_test_config resolve hardware_of required_setpoints check_stages
    check_battery_limits check_smu_limits check_timeout check_charge_mode seconds
refused = refl

validate_group_test_config-safe_example :
    check (supervised cell monitor) (finite (pos 4000)) (finite (negsuc 449)) none (some charge)
    ≡ safe
validate_group_test_config-safe_example =
    validate_group_test_config-safe development tables 7 returned monitor charge (pos 500)
      (pos 4200) (pos 3500) (pos 4000) (negsuc 449) passes_all_stages refl refl refl (omega arith)
      (omega arith) (omega arith)

-- A text whose upper case is PRODUCTION.
recovers : is_recovery_enabled (λ t. mode_value production) none (named []) ≡ ok true
unfolding is_recovery_enabled get_mode_policy parse_system_mode mode_named mode_policies
recovers = refl

shipped_groups_example : passes (validate_group_test_config development shipped b1) ≡ true
shipped_groups_example = shipped_groups development b1
