-- ===== src/Config/GroupTest.antt =====
-- utils/validators.py: the checks of one value, of the settings, and of the configuration of a group
-- before a charge or a discharge.
pub mod Limits
pub mod Supervised
use nipxi.Prelude.{
  ℕ, Bool, true, false, not, ◌&&◌, ◌||◌, Option, none, some, List, [], ◌∷◌, if◌then◌else◌, ltb, leb,
  lookup, nat_eq,
}
use nipxi.Prelude.Exec.{Result, ok, err}
use nipxi.Prelude.Int.{ℤ, pos, ltb_ℤ}
use nipxi.Safety.Monitor.{Float, finite, nan, above, below, abs_float, at_most}
use nipxi.Orchestration.Workers.{Name}
use nipxi.Prelude.Text.{Text}
use nipxi.Config.SystemMode.{
  SystemMode, production, development, validation, ModeSetting, parse_system_mode,
}
use nipxi.Config.Devices.{
  seconds, Value, number, not_a_number, ChargeMode, cc_cv, cv, unrecognized, TestSetpoints,
  BatteryConfig, SmuCfg, DeviceTables, BatteryGroup, GroupHardware, hardware_of,
}

-- The classes of utils/errors.py.
pub data ConfigError : Type 0 where
  validation_error group_configuration_error : ConfigError
  configuration_error hardware_configuration_error : ConfigError

abbrev pub Check : Type 0
Check = Result ConfigError (Unit {0})

infixl 5 ◌then◌
abbrev pub ◌then◌ : {A : Type 0} → Check → Result ConfigError A → Result ConfigError A
(ok _) then r = r
(err e) then r = err e

abbrev pub refuse : Bool → ConfigError → Check
refuse b e = if b then err e else ok tt

-- The settings that are checked.
pub record ValidatedSettings : Type 0 where
  pub system_mode : ModeSetting
  pub battery_positions : ℤ
  pub bat_voltage_min : ℤ
  pub bat_voltage_max : ℤ
  pub bat_current_max : ℤ
  pub charge_current_a : ℤ
  pub discharge_current_a : ℤ
  pub sample_rate_hz : ℤ

unfoldable pub validate_group_channel : ℤ → ValidatedSettings → Check
validate_group_channel channel s =
    refuse (ltb_ℤ channel (pos 1) || ltb_ℤ s.battery_positions channel) validation_error

unfoldable pub validate_channels : List ℤ → ValidatedSettings → Check
unfolding validate_group_channel
validate_channels [] s = ok tt
validate_channels (ch ∷ channels) s = validate_group_channel ch s then validate_channels channels s

unfoldable pub validate_voltage : Float → ValidatedSettings → Check
validate_voltage v s =
    refuse (not (not_below v s.bat_voltage_min && at_most v s.bat_voltage_max)) validation_error
  where
    -- `limit <= v`
    not_below : Float → ℤ → Bool
    not_below (finite a) limit = not (ltb_ℤ a limit)
    not_below nan limit = false

unfoldable pub validate_current : Float → ValidatedSettings → Check
validate_current a s = refuse (above (abs_float a) s.bat_current_max) validation_error

abbrev pub forget : {E A : Type 0} → E → Result (Unit {0}) A → Result E (Unit {0})
forget e (ok _) = ok tt
forget e (err _) = err e

unfoldable pub validate_settings : (Text → Text) → ValidatedSettings → Check
validate_settings upper s =
    forget validation_error (parse_system_mode upper s.system_mode)
    then refuse (not (ltb_ℤ (pos 0) s.battery_positions)) validation_error
    then refuse (not (ltb_ℤ s.bat_voltage_min s.bat_voltage_max)) validation_error
    then refuse (not (ltb_ℤ (pos 0) s.charge_current_a)) validation_error
    then refuse (not (ltb_ℤ (pos 0) s.discharge_current_a)) validation_error
    then refuse (not (ltb_ℤ (pos 0) s.sample_rate_hz)) validation_error

-- The four required setpoints.
pub record Required : Type 0 where
  pub charge_current : Float
  pub charge_voltage : Float
  pub discharge_current : Float
  pub discharge_cutoff : Float

unfoldable pub required_setpoints : TestSetpoints → Option Required
required_setpoints t = elim t.charge_current_a [
  | none ↦ none
  | some i ↦ elim t.charge_voltage_v [
    | none ↦ none
    | some v ↦ elim t.discharge_current_a [
      | none ↦ none
      | some j ↦ elim t.discharge_cutoff_v [
        | none ↦ none
        | some u ↦ some record {
          charge_current = i;
          charge_voltage = v;
          discharge_current = j;
          discharge_cutoff = u;
        }
      ]
    ]
  ]
]

-- Stage 2
unfoldable pub check_battery_limits : BatteryConfig → Required → Check
check_battery_limits cfg r =
    refuse (above r.charge_current cfg.max_charge_current_a) configuration_error
    then refuse (above r.charge_voltage cfg.voltage_max_v) configuration_error
    then refuse (above r.discharge_current cfg.max_discharge_current_a) configuration_error
    then refuse (below r.discharge_cutoff cfg.voltage_min_v) configuration_error

-- Stage 3
unfoldable pub check_smu_limits : SmuCfg → Required → Check
check_smu_limits cfg r = elim cfg.max_current_a [
  | none ↦ ok tt
  | some limit ↦
      refuse (above r.charge_current limit) hardware_configuration_error
      then refuse (above r.discharge_current limit) hardware_configuration_error
]

-- Settings.MAX_TIMEOUT_OVERRIDE_S
abbrev pub max_timeout_override : ℤ
max_timeout_override = seconds 86_400

abbrev pub is_production : SystemMode → Bool
is_production production = true
is_production _ = false

-- Stage 4 of one key, where `mode` is Settings.SYSTEM_MODE.
unfoldable pub check_timeout : SystemMode → Option Value → Check
check_timeout mode none = ok tt
check_timeout mode (some not_a_number) =
    refuse (is_production mode) group_configuration_error then err configuration_error
check_timeout mode (some (number value)) =
    refuse (is_production mode) group_configuration_error
    then refuse (at_most value (pos 0)) configuration_error
    then refuse (above value max_timeout_override) configuration_error

-- Stage 5: the default, and the strategy that is implemented.
unfoldable pub check_charge_mode : Option ChargeMode → Check
check_charge_mode none = ok tt
check_charge_mode (some cc_cv) = ok tt
check_charge_mode (some cv) = err group_configuration_error
check_charge_mode (some (unrecognized _)) = err group_configuration_error

-- `setdefault("charge_mode", "CC_CV")`
abbrev pub with_charge_mode : TestSetpoints → TestSetpoints
with_charge_mode t = elim t.charge_mode [
  | none ↦ record t { charge_mode = some cc_cv }
  | some _ ↦ t
]

-- What is returned, the battery type and the setpoints, and what it was checked against.
pub record GroupTestConfig : Type 0 where
  pub battery_type : Name
  pub setpoints : TestSetpoints
  pub required : Required
  pub battery_cfg : BatteryConfig

abbrev is_none {ℓ} : {A : Type ℓ} → Option A → Bool
is_none none = true
is_none (some _) = false

-- The stages 2 to 5.
unfoldable pub check_stages : SystemMode → BatteryConfig → SmuCfg → TestSetpoints → Required → Check
check_stages mode cfg smu_cfg t r =
    check_battery_limits cfg r
    then check_smu_limits smu_cfg r
    then check_timeout mode t.charge_timeout_s
    then check_timeout mode t.discharge_timeout_s
    then check_charge_mode t.charge_mode

-- Stage 1: the hardware, the battery type and the setpoints of the group, and what they name.
unfoldable pub resolve :
    DeviceTables → BatteryGroup → GroupHardware → Result ConfigError (SmuCfg × GroupTestConfig)
resolve dev grp hw = elim hw.smu_cfg [
  | none ↦ err group_configuration_error
  | some smu_cfg ↦
      if is_none hw.relay_matrix_cfg || is_none hw.dmm_cfg
      then err group_configuration_error
      else elim grp.battery_type [
        | none ↦ err group_configuration_error
        | some battery_type ↦ elim grp.test_setpoints [
          | none ↦ err group_configuration_error
          | some t ↦ elim (required_setpoints t) [
            | none ↦ err group_configuration_error
            | some r ↦ elim (lookup battery_type dev.battery_configs) [
              | none ↦ err configuration_error
              | some cfg ↦ ok (
                smu_cfg,
                record {
                  battery_type = battery_type;
                  setpoints = t;
                  required = r;
                  battery_cfg = cfg;
                },
              )
            ]
          ]
        ]
      ]
]

unfoldable pub validate_group_test_config :
    SystemMode → DeviceTables → Name → Result ConfigError GroupTestConfig
validate_group_test_config mode dev group = elim (lookup group dev.battery_groups) [
  | none ↦ err group_configuration_error
  | some grp ↦ elim (resolve dev grp (hardware_of dev group grp)) [
    | err e ↦ err e
    | ok (smu_cfg, config) ↦
        check_stages mode config.battery_cfg smu_cfg config.setpoints config.required
        then ok record config { setpoints = with_charge_mode config.setpoints }
  ]
]
