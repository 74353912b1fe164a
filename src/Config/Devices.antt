-- ===== src/Config/Devices.antt =====
-- config/devices.py: the groups of battery positions, and which devices a group uses. A device or a
-- battery type is a name.
use nipxi.Prelude.{ℕ, zero, suc, ◌*◌, ◌^◌, Option, none, some, List, length, Dict, lookup, nat_eq}
use nipxi.Prelude.Int.{ℤ, pos}
use nipxi.Safety.Monitor.{Float}
use nipxi.Orchestration.Workers.{Name}

-- Seconds in the unit of the timeouts, of which every finite float is a multiple: 2^-1074 s.
unfoldable pub seconds : ℕ → ℤ
seconds n = pos (n * 2 ^ 1074)

-- A value in the configuration that is to be a number.
pub data Value : Type 0 where
  number : Float → Value
  not_a_number : Value

pub data ChargeMode : Type 0 where
  cc_cv cv : ChargeMode
  unrecognized : Name → ChargeMode

-- `test_setpoints`: keys may be missing.
pub record TestSetpoints : Type 0 where
  pub charge_current_a : Option Float
  pub charge_voltage_v : Option Float
  pub discharge_current_a : Option Float
  pub discharge_cutoff_v : Option Float
  pub charge_timeout_s : Option Value
  pub discharge_timeout_s : Option Value
  pub charge_mode : Option ChargeMode

-- An entry of `BATTERY_GROUPS`, less the positions' wiring.
pub record BatteryGroup : Type 0 where
  pub relay_matrix : Option Name
  pub smu : Option Name
  pub dmm : Option Name
  pub daq : Option Name
  pub ntc_daq : Option Name
  pub sense_channel : Option ℕ
  pub battery_type : Option Name
  pub test_setpoints : Option TestSetpoints
  pub positions : List ℕ

-- An entry of `BATTERY_CONFIGS`.
pub record BatteryConfig : Type 0 where
  pub voltage_max_v : ℤ
  pub voltage_min_v : ℤ
  pub max_charge_current_a : ℤ
  pub max_discharge_current_a : ℤ

-- What is read of an entry of `SMU_ASSIGNMENTS`.
pub record SmuCfg : Type 0 where
  pub max_current_a : Option ℤ

-- The tables of the module. A relay matrix, a DMM and a DAQ are known by their own names.
pub record DeviceTables : Type 0 where
  pub battery_groups : Dict Name BatteryGroup
  pub battery_configs : Dict Name BatteryConfig
  pub ethernet_devices : Dict Name Name
  pub smu_assignments : Dict Name SmuCfg
  pub dmm_configs : Dict Name Name
  pub daq_configs : Dict Name Name
  pub usb_daq_devices : Dict Name Name

pub record GroupHardware : Type 0 where
  pub relay_matrix_cfg : Option Name
  pub smu_cfg : Option SmuCfg
  pub dmm_cfg : Option Name
  pub daq_cfg : Option Name
  pub ntc_daq_name : Option Name
  pub ntc_daq_cfg : Option Name
  pub sense_channel : Option ℕ

-- `grp.get("ntc_daq") or grp["daq"]`, where the empty name is 0.
abbrev pub ntc_daq_key : BatteryGroup → Option Name
ntc_daq_key grp = elim grp.ntc_daq [
  | none ↦ grp.daq
  | some name ↦ elim name [ zero ↦ grp.daq | suc n ↦ some (suc n) ]
]

-- `configs.get(name)`: no key is None.
abbrev get {ℓ} : {A : Type ℓ} → Option Name → Dict Name A → Option A
get none configs = none
get (some name) configs = lookup name configs

-- `none` is the KeyError of a group that is not there.
module _ (dev : DeviceTables) (group : Name) where
  unfoldable pub group_size : Option ℕ
  group_size = elim (lookup group dev.battery_groups) [
    | none ↦ none
    | some grp ↦ some (length grp.positions)
  ]

  -- `{**DAQ_CONFIGS, **USB_DAQ_DEVICES}` gives the USB device where both have the name.
  abbrev pub daq_cfg_of : Option Name → Option Name
  daq_cfg_of name = elim (get name dev.usb_daq_devices) [
    | some cfg ↦ some cfg
    | none ↦ get name dev.daq_configs
  ]

  unfoldable pub hardware_of : BatteryGroup → GroupHardware
  hardware_of grp = record {
    relay_matrix_cfg = get grp.relay_matrix dev.ethernet_devices;
    smu_cfg = get grp.smu dev.smu_assignments;
    dmm_cfg = get grp.dmm dev.dmm_configs;
    daq_cfg = get grp.daq dev.daq_configs;
    ntc_daq_name = ntc_daq_key grp;
    ntc_daq_cfg = daq_cfg_of (ntc_daq_key grp);
    sense_channel = grp.sense_channel;
  }

  unfoldable pub hardware_for_group : Option GroupHardware
  hardware_for_group = elim (lookup group dev.battery_groups) [
    | none ↦ none
    | some grp ↦ some (hardware_of grp)
  ]

  unfoldable pub group_test_config : Option (Option Name × Option TestSetpoints)
  group_test_config = elim (lookup group dev.battery_groups) [
    | none ↦ none
    | some grp ↦ some (grp.battery_type, grp.test_setpoints)
  ]
