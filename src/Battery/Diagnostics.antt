-- ===== src/Battery/Diagnostics.antt =====
-- test_control/battery_diagnostics.py: what voltages and currents suggest about a position; and the
-- running statistics of test_control/battery_operation_sequence.py. Voltages and currents are in
-- thousandths, durations in whole units with `short_duration` of them to SHORT_DURATION_S.
pub mod Statistics
use nipxi.Prelude.{
  ℕ, suc, ◌+◌, ◌*◌, Bool, true, false, not, ◌&&◌, Option, none, some, if◌then◌else◌, leb, ltb,
}
use nipxi.Prelude.Int.{ℤ, pos, negsuc, ltb_ℤ, abs, pos_part, neg_part}
use nipxi.Safety.Monitor.{Float, finite, nan, at_most, abs_float}

-- A sample of the loop.
pub record Reading : Type 0 where
  pub v : Float
  pub i : Float

-- `a >= limit`
abbrev pub at_least : Float → ℤ → Bool
at_least (finite a) limit = not (ltb_ℤ a limit)
at_least nan limit = false

-- `abs(i) >= abs(current_a) * CC_PHASE_CURRENT_FRACTION`, with both sides doubled.
abbrev pub in_cc_phase : ℤ → Float → Bool
in_cc_phase current_a nan = false
in_cc_phase current_a (finite i) =
    leb (pos_part (abs current_a)) (pos_part (abs i) + pos_part (abs i))

-- `v >= voltage_limit_v and abs(i) <= cutoff_a`
unfoldable pub reaches_charge : ℤ → ℤ → Reading → Bool
reaches_charge voltage_limit_v cutoff_a r =
    at_least r.v voltage_limit_v && at_most (abs_float r.i) cutoff_a

unfoldable pub charge_transition_suggests_battery_removed :
    Option Reading → Reading → ℤ → ℤ → ℤ → Bool
charge_transition_suggests_battery_removed none r current_a voltage_limit_v cutoff_a = false
charge_transition_suggests_battery_removed (some prev) r current_a voltage_limit_v cutoff_a =
    reaches_charge voltage_limit_v cutoff_a r && in_cc_phase current_a prev.i

pub data BatteryPresence : Type 0 where
  present absent reversed : BatteryPresence

-- Settings.REVERSE_POLARITY_VOLTAGE_THRESHOLD_V and EMPTY_POSITION_VOLTAGE_V.
abbrev pub reverse_polarity_threshold : ℤ
reverse_polarity_threshold = negsuc 499

abbrev pub empty_position_voltage : ℤ
empty_position_voltage = pos 500

unfoldable pub classify_battery_presence : Float → BatteryPresence
classify_battery_presence v =
    if at_most v reverse_polarity_threshold
    then reversed
    else if at_most v empty_position_voltage
    then absent
    else present

pub data ChargeDiagnosis : Type 0 where
  already_charged possibly_empty_position normal_charge_behavior : ChargeDiagnosis

pub data DischargeDiagnosis : Type 0 where
  empty_position normal_discharge_behavior : DischargeDiagnosis

-- NEAR_FULL_MARGIN_V and SHORT_DURATION_S
abbrev pub near_full_margin : ℕ
near_full_margin = 50

abbrev pub short_duration : ℕ
short_duration = 15

-- `avg_current_a < commanded_current_a * MIN_MEANINGFUL_CURRENT_FRACTION`, times the number of samples
-- and 20; the average of no sample is 0.
abbrev pub is_small_current : ℕ → ℕ → ℕ → Bool
is_small_current current_sum sample_count commanded =
    if leb sample_count 0
    then ltb 0 commanded
    else ltb (20 * current_sum) (commanded * sample_count)

-- `initial >= voltage_max_v - NEAR_FULL_MARGIN_V`, with the margin added on both sides.
abbrev pub near_full : ℤ → ℤ → Bool
near_full initial voltage_max =
    leb (pos_part voltage_max + neg_part initial)
      (pos_part initial + neg_part voltage_max + near_full_margin)

unfoldable pub leb_ℤ : ℤ → ℤ → Bool
leb_ℤ a b = not (ltb_ℤ b a)

unfoldable pub classify_charge_behavior : Option ℤ → ℕ → ℕ → ℕ → ℕ → ℤ → ChargeDiagnosis
classify_charge_behavior none current_sum sample_count duration commanded voltage_max =
    normal_charge_behavior
classify_charge_behavior (some initial) current_sum sample_count duration commanded voltage_max =
    if is_small_current current_sum sample_count commanded && leb duration short_duration
    then if near_full initial voltage_max
      then already_charged
      else if leb_ℤ initial empty_position_voltage
      then possibly_empty_position
      else normal_charge_behavior
    else normal_charge_behavior

unfoldable pub classify_discharge_behavior :
    Option ℤ → Option ℤ → ℕ → ℕ → ℕ → ℕ → ℤ → DischargeDiagnosis
classify_discharge_behavior none final current_sum sample_count duration commanded voltage_min =
    normal_discharge_behavior
classify_discharge_behavior (some initial) final current_sum sample_count duration commanded
      voltage_min =
    if is_small_current current_sum sample_count commanded
      && leb duration short_duration
      && elim final [ none ↦ false | some v ↦ leb_ℤ v voltage_min ]
    then empty_position
    else normal_discharge_behavior

-- `_ChargeDischargeStats` of finite samples.
pub record Stats : Type 0 where
  pub initial_voltage_v : Option ℤ
  pub final_voltage_v : Option ℤ
  pub max_current_a : ℕ
  pub current_sum : ℕ
  pub sample_count : ℕ

abbrev pub new_stats : Stats
new_stats = record {
  initial_voltage_v = none;
  final_voltage_v = none;
  max_current_a = 0;
  current_sum = 0;
  sample_count = 0;
}

-- `stats.add(v, i)`
unfoldable pub add_sample : ℤ → ℤ → Stats → Stats
add_sample v i s =
    let size = pos_part (abs i) in
    record {
      initial_voltage_v = elim s.initial_voltage_v [ none ↦ some v | some first ↦ some first ];
      final_voltage_v = some v;
      max_current_a = if ltb s.max_current_a size then size else s.max_current_a;
      current_sum = s.current_sum + size;
      sample_count = suc s.sample_count;
    }
