-- ===== src/Config/GroupTest/Limits.antt =====
-- utils/validators.py: what the configuration of a group that passes is known to be.
use nipxi.Prelude.{◌≡◌, ◌↔◌, ◌≢◌, true, false, Option, none, some, lookup, nat_eq, arith}
use nipxi.Prelude.Exec.{ok}
use nipxi.Prelude.Int.{ℤ, pos, ltb_ℤ, ◌≤ℤ◌}
use nipxi.Safety.Monitor.{Float, finite, nan, above, below}
use nipxi.Orchestration.Workers.{Name}
use nipxi.Config.SystemMode.{SystemMode, production}
use nipxi.Config.Devices.{
  seconds, Value, number, not_a_number, ChargeMode, cc_cv, BatteryConfig, SmuCfg, DeviceTables,
  BatteryGroup, hardware_of,
}
use nipxi.Config.GroupTest.{
  Required, GroupTestConfig, check_battery_limits, check_smu_limits, check_timeout, check_stages,
  check_charge_mode, resolve, validate_group_test_config, with_charge_mode,
}

-- A number at most, or at least, the limit; NaN is let through.
abbrev pub AtMost : Float → ℤ → Type 0
AtMost (finite a) limit = a ≤ℤ limit
AtMost nan limit = Unit {0}

abbrev pub AtLeast : Float → ℤ → Type 0
AtLeast (finite a) limit = limit ≤ℤ a
AtLeast nan limit = Unit {0}

abbrev pub IsWithinBattery : BatteryConfig → Required → Type 0
IsWithinBattery cfg r =
    AtMost r.charge_current cfg.max_charge_current_a
    × AtMost r.charge_voltage cfg.voltage_max_v
    × AtMost r.discharge_current cfg.max_discharge_current_a
    × AtLeast r.discharge_cutoff cfg.voltage_min_v

-- An SMU without a rating has no limit.
abbrev pub IsWithinRating : Option ℤ → Required → Type 0
IsWithinRating none r = Unit {0}
IsWithinRating (some limit) r = AtMost r.charge_current limit × AtMost r.discharge_current limit

-- The charge mode is left out, or the implemented one.
abbrev pub IsImplemented : Option ChargeMode → Type 0
IsImplemented none = Unit {0}
IsImplemented (some mode) = mode ≡ cc_cv

-- No override, or one outside production: a number above zero and up to the ceiling, or NaN.
abbrev pub IsAllowed : SystemMode → Option Value → Type 0
IsAllowed mode none = Unit {0}
IsAllowed mode (some not_a_number) = true ≡ false
IsAllowed mode (some (number (finite t))) =
    (mode ≢ production) × (ltb_ℤ (pos 0) t ≡ true) × (t ≤ℤ seconds 86_400)
IsAllowed mode (some (number nan)) = mode ≢ production

above-AtMost : (a : Float) (limit : ℤ) → (above a limit ≡ false) ↔ AtMost a limit
above-AtMost (finite a) limit = ground arith
above-AtMost nan limit = ground arith

below-AtLeast : (a : Float) (limit : ℤ) → (below a limit ≡ false) ↔ AtLeast a limit
below-AtLeast (finite a) limit = ground arith
below-AtLeast nan limit = ground arith

pub check_battery_limits_iff :
    (cfg : BatteryConfig) (r : Required)
    → (check_battery_limits cfg r ≡ ok tt) ↔ IsWithinBattery cfg r
unfolding check_battery_limits
check_battery_limits_iff cfg r = ground (
  arith,
  above-AtMost r.charge_current cfg.max_charge_current_a,
  above-AtMost r.charge_voltage cfg.voltage_max_v,
  above-AtMost r.discharge_current cfg.max_discharge_current_a,
  below-AtLeast r.discharge_cutoff cfg.voltage_min_v,
)

rating_iff :
    (o : Option ℤ) (r : Required)
    → (check_smu_limits record { max_current_a = o } r ≡ ok tt) ↔ IsWithinRating o r
unfolding check_smu_limits
rating_iff none r = ground arith
rating_iff (some limit) r =
    ground (arith, above-AtMost r.charge_current limit, above-AtMost r.discharge_current limit)

check_charge_mode_iff : (o : Option ChargeMode) → (check_charge_mode o ≡ ok tt) ↔ IsImplemented o
unfolding check_charge_mode
check_charge_mode_iff none = ground arith
check_charge_mode_iff (some mode) = ground arith

check_timeout_iff :
    (mode : SystemMode) (v : Option Value) → (check_timeout mode v ≡ ok tt) ↔ IsAllowed mode v
unfolding check_timeout
check_timeout_iff mode none = ground arith
check_timeout_iff mode (some not_a_number) = ground arith
check_timeout_iff mode (some (number (finite t))) = ground arith
check_timeout_iff mode (some (number nan)) = ground arith

-- For a group that is there, with its hardware, battery type and setpoints found, the configuration
-- is returned, its charge mode filled in, exactly when every setpoint that is a number is within the
-- limits of the battery and of the SMU's rating, each timeout override is absent, or the mode is not
-- PRODUCTION and it is NaN, or above zero and at most 86400 seconds, and the charge mode is the implemented one or left out.
pub validate_group_test_config_iff :
    (mode : SystemMode) (dev : DeviceTables) (group : Name) (grp : BatteryGroup) (smu : SmuCfg)
    (c : GroupTestConfig)
    → lookup group dev.battery_groups ≡ some grp
    → resolve dev grp (hardware_of dev group grp) ≡ ok (smu, c)
    → (validate_group_test_config mode dev group
        ≡ ok record c { setpoints = with_charge_mode c.setpoints })
      ↔ (IsWithinBattery c.battery_cfg c.required
          × IsWithinRating smu.max_current_a c.required
          × IsAllowed mode c.setpoints.charge_timeout_s
          × IsAllowed mode c.setpoints.discharge_timeout_s
          × IsImplemented c.setpoints.charge_mode)
unfolding validate_group_test_config check_stages
validate_group_test_config_iff mode dev group grp smu c e h = ground (
  arith,
  check_battery_limits_iff c.battery_cfg c.required,
  rating_iff smu.max_current_a c.required,
  check_timeout_iff mode c.setpoints.charge_timeout_s,
  check_timeout_iff mode c.setpoints.discharge_timeout_s,
  check_charge_mode_iff c.setpoints.charge_mode,
)
