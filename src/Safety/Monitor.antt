-- ===== src/Safety/Monitor.antt =====
-- test_control/safety_monitor.py: which measurements are within the limits. Limits are finite numbers
-- in one unit; a measured value may also be NaN, for which every comparison is false.
pub mod Limits
use nipxi.Prelude.{ℕ, Bool, true, false, not, ◌&&◌, Option, none, some, if◌then◌else◌, arith}
use nipxi.Prelude.Int.{ℤ, pos, negsuc, ltb_ℤ, abs}

pub data Float : Type 0 where
  finite : ℤ → Float
  nan : Float

-- `a > limit`, `a < limit` and `abs(a)`
abbrev pub above : Float → ℤ → Bool
above (finite a) limit = ltb_ℤ limit a
above nan limit = false

abbrev pub below : Float → ℤ → Bool
below (finite a) limit = ltb_ℤ a limit
below nan limit = false

abbrev pub abs_float : Float → Float
abs_float (finite a) = finite (abs a)
abs_float nan = nan

-- The keys of a BATTERY_CONFIGS entry that the limits are read from, and those that it may lack.
pub record BatteryCfg : Type 0 where
  pub voltage_max_v : Option ℤ
  pub voltage_min_v : Option ℤ
  pub max_temp_c : Option ℤ
  pub max_charge_current_a : Option ℤ
  pub max_discharge_current_a : Option ℤ

pub record Settings : Type 0 where
  pub bat_voltage_max : ℤ
  pub bat_voltage_min : ℤ
  pub bat_current_max : ℤ
  pub bat_temp_max_c : ℤ
  pub zero_current_threshold_a : ℤ

pub data Mode : Type 0 where
  charge discharge : Mode

pub record SafetyMonitor : Type 0 where
  pub s : Settings
  pub battery_cfg : Option BatteryCfg

pub data SafetyStatus : Type 0 where
  safe overvoltage undervoltage overcurrent overtemperature : SafetyStatus

abbrev pub set_battery_limits : Option BatteryCfg → SafetyMonitor → SafetyMonitor
set_battery_limits cfg m = record m { battery_cfg = cfg }

-- `cfg[key]` where the entry is there and has the key, or else the global setting.
abbrev pub limit_or : ℤ → (BatteryCfg → Option ℤ) → Option BatteryCfg → ℤ
limit_or default key none = default
limit_or default key (some cfg) = elim (key cfg) [ some limit ↦ limit | none ↦ default ]

abbrev pub voltage_max : SafetyMonitor → ℤ
voltage_max m = limit_or m.s.bat_voltage_max (λ cfg. cfg.voltage_max_v) m.battery_cfg

abbrev pub voltage_min : SafetyMonitor → ℤ
voltage_min m = limit_or m.s.bat_voltage_min (λ cfg. cfg.voltage_min_v) m.battery_cfg

abbrev pub temp_max : SafetyMonitor → ℤ
temp_max m = limit_or m.s.bat_temp_max_c (λ cfg. cfg.max_temp_c) m.battery_cfg

-- `min(candidates)`, or the global limit when there is none.
abbrev pub least : Option ℤ → Option ℤ → ℤ → ℤ
least none none default = default
least (some a) none default = a
least none (some b) default = b
least (some a) (some b) default = if ltb_ℤ b a then b else a

abbrev pub asked_limit : Option Mode → BatteryCfg → Option ℤ
asked_limit none cfg = none
asked_limit (some charge) cfg = cfg.max_charge_current_a
asked_limit (some discharge) cfg = cfg.max_discharge_current_a

unfoldable pub current_max : Option Mode → SafetyMonitor → ℤ
current_max mode m = elim m.battery_cfg [
  | none ↦ m.s.bat_current_max
  | some cfg ↦ elim (asked_limit mode cfg) [
    | some limit ↦ limit
    | none ↦ least cfg.max_charge_current_a cfg.max_discharge_current_a m.s.bat_current_max
  ]
]

-- `temp_c is not None and temp_c > t_max`
abbrev pub too_hot : Option Float → ℤ → Bool
too_hot none limit = false
too_hot (some t) limit = above t limit

unfoldable pub check : SafetyMonitor → Float → Float → Option Float → Option Mode → SafetyStatus
check m voltage_v current_a temp_c mode =
    if above voltage_v (voltage_max m)
    then overvoltage
    else if below voltage_v (voltage_min m)
    then undervoltage
    else if above (abs_float current_a) (current_max mode m)
    then overcurrent
    else if too_hot temp_c (temp_max m)
    then overtemperature
    else safe

unfoldable pub check_temperature : SafetyMonitor → Option Float → SafetyStatus
check_temperature m none = safe
check_temperature m (some t) = if above t (temp_max m) then overtemperature else safe

-- `a <= limit`
abbrev pub at_most : Float → ℤ → Bool
at_most (finite a) limit = not (ltb_ℤ limit a)
at_most nan limit = false

unfoldable pub is_safe_to_switch_relay : SafetyMonitor → Float → Bool
is_safe_to_switch_relay m current_a = at_most (abs_float current_a) m.s.zero_current_threshold_a
