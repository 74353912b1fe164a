-- ===== src/Config/Shipped/Groups.antt =====
-- config/devices.py and utils/validators.py: which groups of the shipped tables can be run.
use nipxi.Prelude.{◌≡◌, Bool, true, false, not, ◌&&◌, ◌==◌, nat_eq, arith}
use nipxi.Prelude.Exec.{Result, ok, err}
use nipxi.Orchestration.Workers.{Name}
use nipxi.Config.SystemMode.{SystemMode, development, validation, production}
use nipxi.Config.Devices.{seconds, hardware_of}
use nipxi.Config.GroupTest.{
  check_stages, check_battery_limits, check_smu_limits, check_timeout, check_charge_mode,
  is_production, required_setpoints, resolve, validate_group_test_config,
}
use nipxi.Config.Shipped.{shipped, b1}

abbrev pub passes : {E A : Type 0} → Result E A → Bool
passes (ok a) = true
passes (err e) = false

-- Of all names, the shipped tables let exactly B1 pass, and not in PRODUCTION.
pub shipped_groups :
    (mode : SystemMode) (group : Name)
    → passes (validate_group_test_config mode shipped group)
      ≡ (group == b1 && not (is_production mode))
unfolding shipped validate_group_test_config resolve required_setpoints hardware_of check_stages
    check_battery_limits check_smu_limits check_timeout check_charge_mode seconds
shipped_groups development group = ground arith
shipped_groups validation group = ground arith
shipped_groups production group = ground arith
