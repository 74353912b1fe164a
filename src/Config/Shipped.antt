-- ===== src/Config/Shipped.antt =====
-- config/devices.py: the tables that are shipped, in thousandths of an ampere and of a volt. A name is
-- a number; the texts and the settings of the drivers are left out.
pub mod Groups
use nipxi.Prelude.{
  ℕ, zero, suc, Bool, true, false, Option, none, some, List, [], ◌∷◌, map, keep, Dict,
}
use nipxi.Prelude.Int.{ℤ, pos}
use nipxi.Safety.Monitor.{finite}
use nipxi.Orchestration.Workers.{Name}
use nipxi.Config.Devices.{
  seconds, number, TestSetpoints, BatteryGroup, BatteryConfig, SmuCfg, DeviceTables,
}

pub data Category : Type 0 where
  daq_card dmm_card smu_card switch_card : Category

-- An entry of `PXI_SLOTS`.
pub record PxiSlot : Type 0 where
  pub slot : ℕ
  pub nickname : Name
  pub category : Category
  pub enabled : Bool
  pub max_current_a : Option ℤ

-- MAIN_DAQ, MAIN_DMM, PRIMARY_SMU, HIGH_POWER_SMU, AUX_SMU_1, AUX_SMU_2, CHASSIS_RELAY_MATRIX,
-- NTC_DAQ_USB6210, and the matrices MATRIX_NUMATO_201 to MATRIX_NUMATO_203
abbrev pub main_daq : Name
main_daq = 1

abbrev pub main_dmm : Name
main_dmm = 2

abbrev pub primary_smu : Name
primary_smu = 3

abbrev pub high_power_smu : Name
high_power_smu = 4

abbrev pub aux_smu_1 : Name
aux_smu_1 = 5

abbrev pub aux_smu_2 : Name
aux_smu_2 = 6

abbrev pub chassis_relay_matrix : Name
chassis_relay_matrix = 7

abbrev pub ntc_daq_usb6210 : Name
ntc_daq_usb6210 = 8

abbrev pub matrix_numato_201 : Name
matrix_numato_201 = 201

abbrev pub matrix_numato_202 : Name
matrix_numato_202 = 202

abbrev pub matrix_numato_203 : Name
matrix_numato_203 = 203

abbrev pub slot_2 : PxiSlot
slot_2 = record {
  slot = 2;
  nickname = main_daq;
  category = daq_card;
  enabled = true;
  max_current_a = none;
}

abbrev pub slot_3 : PxiSlot
slot_3 = record {
  slot = 3;
  nickname = main_dmm;
  category = dmm_card;
  enabled = true;
  max_current_a = none;
}

abbrev pub slot_5 : PxiSlot
slot_5 = record {
  slot = 5;
  nickname = primary_smu;
  category = smu_card;
  enabled = true;
  max_current_a = some (pos 100);
}

abbrev pub slot_6 : PxiSlot
slot_6 = record {
  slot = 6;
  nickname = high_power_smu;
  category = smu_card;
  enabled = true;
  max_current_a = some (pos 3000);
}

abbrev pub slot_7 : PxiSlot
slot_7 = record {
  slot = 7;
  nickname = aux_smu_1;
  category = smu_card;
  enabled = true;
  max_current_a = some (pos 1000);
}

abbrev pub slot_8 : PxiSlot
slot_8 = record {
  slot = 8;
  nickname = aux_smu_2;
  category = smu_card;
  enabled = true;
  max_current_a = some (pos 1000);
}

abbrev pub slot_11 : PxiSlot
slot_11 = record {
  slot = 11;
  nickname = chassis_relay_matrix;
  category = switch_card;
  enabled = false;
  max_current_a = none;
}

abbrev pub pxi_slots : List PxiSlot
pxi_slots = slot_2 ∷ slot_3 ∷ slot_5 ∷ slot_6 ∷ slot_7 ∷ slot_8 ∷ slot_11 ∷ []

abbrev pub same_category : Category → Category → Bool
same_category daq_card daq_card = true
same_category dmm_card dmm_card = true
same_category smu_card smu_card = true
same_category switch_card switch_card = true
same_category _ _ = false

abbrev pub slots_by_category : Category → List PxiSlot
slots_by_category category = keep (λ cfg. same_category cfg.category category) pxi_slots

abbrev pub smu_assignments : Dict Name SmuCfg
smu_assignments =
    map (λ cfg. (cfg.nickname, record { max_current_a = cfg.max_current_a }))
      (slots_by_category smu_card)

abbrev pub daq_configs : Dict Name Name
daq_configs = map (λ cfg. (cfg.nickname, cfg.nickname)) (slots_by_category daq_card)

abbrev pub dmm_configs : Dict Name Name
dmm_configs = map (λ cfg. (cfg.nickname, cfg.nickname)) (slots_by_category dmm_card)

-- HUB and SB
abbrev pub hub : Name
hub = 1

abbrev pub sb : Name
sb = 2

abbrev pub hub_cell : BatteryConfig
hub_cell = record {
  voltage_max_v = pos 4200;
  voltage_min_v = pos 2750;
  max_charge_current_a = pos 2000;
  max_discharge_current_a = pos 2000;
}

abbrev pub sb_cell : BatteryConfig
sb_cell = record {
  voltage_max_v = pos 4200;
  voltage_min_v = pos 3000;
  max_charge_current_a = pos 600;
  max_discharge_current_a = pos 160;
}

abbrev pub battery_configs : Dict Name BatteryConfig
battery_configs = (hub, hub_cell) ∷ (sb, sb_cell) ∷ []

abbrev pub placeholder_group : BatteryGroup
placeholder_group = record {
  relay_matrix = none;
  smu = none;
  dmm = none;
  daq = none;
  ntc_daq = none;
  sense_channel = none;
  battery_type = none;
  test_setpoints = none;
  positions = [];
}

abbrev pub b1_setpoints : TestSetpoints
b1_setpoints = record {
  charge_current_a = some (finite (pos 1000));
  charge_voltage_v = some (finite (pos 4000));
  discharge_current_a = some (finite (pos 80));
  discharge_cutoff_v = some (finite (pos 3000));
  charge_timeout_s = some (number (finite (seconds 300)));
  discharge_timeout_s = some (number (finite (seconds 600)));
  charge_mode = none;
}

abbrev pub on_matrix : Name → BatteryGroup
on_matrix name = record placeholder_group { relay_matrix = some name }

-- The twelve groups, four of each of the families A, B and C
abbrev pub b1 : Name
b1 = 5

abbrev pub b1_group : BatteryGroup
b1_group = record {
  relay_matrix = some matrix_numato_202;
  smu = some aux_smu_1;
  dmm = some main_dmm;
  daq = some main_daq;
  ntc_daq = none;
  sense_channel = some 1;
  battery_type = some hub;
  test_setpoints = some b1_setpoints;
  positions = 1 ∷ 2 ∷ 3 ∷ 4 ∷ 5 ∷ 6 ∷ 7 ∷ 8 ∷ [];
}

abbrev pub battery_groups : Dict Name BatteryGroup
battery_groups =
    (1, on_matrix matrix_numato_201)
    ∷ (2, on_matrix matrix_numato_201)
    ∷ (3, on_matrix matrix_numato_201)
    ∷ (4, on_matrix matrix_numato_201)
    ∷ (b1, b1_group)
    ∷ (6, record (on_matrix matrix_numato_202) { dmm = some main_dmm; daq = some main_daq })
    ∷ (7, on_matrix matrix_numato_202)
    ∷ (8, on_matrix matrix_numato_202)
    ∷ (9, on_matrix matrix_numato_203)
    ∷ (10, on_matrix matrix_numato_203)
    ∷ (11, on_matrix matrix_numato_203)
    ∷ (12, on_matrix matrix_numato_203)
    ∷ []

abbrev pub ethernet_devices : Dict Name Name
ethernet_devices =
    (matrix_numato_201, matrix_numato_201)
    ∷ (matrix_numato_202, matrix_numato_202)
    ∷ (matrix_numato_203, matrix_numato_203)
    ∷ []

unfoldable pub shipped : DeviceTables
shipped = record {
  battery_groups = battery_groups;
  battery_configs = battery_configs;
  ethernet_devices = ethernet_devices;
  smu_assignments = smu_assignments;
  dmm_configs = dmm_configs;
  daq_configs = daq_configs;
  usb_daq_devices = (ntc_daq_usb6210, ntc_daq_usb6210) ∷ [];
}
