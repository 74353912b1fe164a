-- ===== src/Battery/Sampling.antt =====
-- test_control/charge_sequence.py and discharge_sequence.py: their sampling loops, which differ in how
-- a sample is judged. What the clock, the token, the instruments and the storage give in each round
-- is a list.
pub mod Endings
use nipxi.Prelude.{
  ℕ, zero, suc, Bool, true, false, Option, none, some, List, [], ◌∷◌, if◌then◌else◌, leb,
}
use nipxi.Prelude.Int.{ℤ, ltb_ℤ}
use nipxi.Safety.Monitor.{
  Float, SafetyMonitor, SafetyStatus, safe, overvoltage, undervoltage, overcurrent, overtemperature,
  Mode, charge, discharge, check, at_most,
}
use nipxi.Battery.Diagnostics.{Reading, reaches_charge, charge_transition_suggests_battery_removed}

-- One round: whether the checkpoint finds a request, the time, the current that the SMU measures and
-- the voltage of the DMM, unless they raise, the temperature if the NTC gives one, whether an event
-- that is logged before the safety check or the measurement after it cannot be stored, and whether a
-- request comes during the wait.
pub record Round : Type 0 where
  pub cancelled_at_check : Bool
  pub elapsed : ℤ
  pub smu_current : Option Float
  pub dmm_voltage : Option Float
  pub temp_c : Option Float
  pub log_raises : Bool
  pub record_raises : Bool
  pub cancelled_in_sleep : Bool

pub data Verdict : Type 0 where
  goes_on reached removed : Verdict

abbrev pub Judge : Type 0
Judge = Option Reading → Reading → Verdict

-- The end of a charge, and of a discharge.
abbrev pub judge_charge : ℤ → ℤ → ℤ → Judge
judge_charge current_a voltage_limit_v cutoff_a prev r =
    if reaches_charge voltage_limit_v cutoff_a r
    then if charge_transition_suggests_battery_removed prev r current_a voltage_limit_v cutoff_a
      then removed
      else reached
    else goes_on

abbrev pub judge_discharge : ℤ → Judge
judge_discharge cutoff_v prev r = if at_most r.v cutoff_v then reached else goes_on

-- `max(target_v, floor_v)`
unfoldable pub cutoff_of : ℤ → ℤ → ℤ
cutoff_of target_v floor_v = if ltb_ℤ target_v floor_v then floor_v else target_v

-- How the loop ends; `out_of_rounds` is the end of the list.
pub data Ending : Type 0 where
  end_reached timed_out cancelled device_error dmm_lost battery_removed storage_error : Ending
  out_of_rounds : Ending
  violation : SafetyStatus → Ending

-- A sample that is recorded.
pub record Recorded : Type 0 where
  pub at : ℤ
  pub reading : Reading
  pub temp : Option Float

-- Settings.DMM_MEASUREMENT_MAX_CONSECUTIVE_FAILURES
abbrev pub max_failures : ℕ
max_failures = 3

module _ (judge : Judge) (timeout_s : ℤ) (mode : Mode) (monitor : SafetyMonitor) where
  -- The `while` loop with the consecutive failures of the DMM and the sample before.
  unfoldable pub sample_loop : ℕ → Option Reading → List Round → Ending × List Recorded
  sample_loop failures prev [] = (out_of_rounds, [])
  sample_loop failures prev (r ∷ rs) =
      let retry = sample_loop (suc failures) prev rs in
      elim r.cancelled_at_check [
        | true ↦ (cancelled, [])
        | false ↦ elim (ltb_ℤ timeout_s r.elapsed) [
          | true ↦ (timed_out, [])
          | false ↦ elim r.smu_current [
            | none ↦ (device_error, [])
            | some i ↦ elim r.dmm_voltage [
              | none ↦
                  if r.log_raises
                  then (storage_error, [])
                  else if leb max_failures (suc failures)
                  then (dmm_lost, [])
                  else if r.cancelled_in_sleep
                  then (cancelled, [])
                  else retry
              | some v ↦
                  let sample : Reading = record { v = v; i = i } in
                  let recorded : Recorded = record {
                    at = r.elapsed;
                    reading = sample;
                    temp = r.temp_c;
                  } in
                  let rest = sample_loop zero (some sample) rs in
                  elim r.log_raises [
                    | true ↦ (storage_error, [])
                    | false ↦ elim (check monitor v i r.temp_c (some mode)) [
                      | safe ↦
                          if r.record_raises
                          then (storage_error, [])
                          else elim (judge prev sample) [
                            | reached ↦ (end_reached, recorded ∷ [])
                            | removed ↦ (battery_removed, recorded ∷ [])
                            | goes_on ↦
                                if r.cancelled_in_sleep
                                then (cancelled, recorded ∷ [])
                                else (rest.0, recorded ∷ rest.1)
                          ]
                      | overvoltage ↦ (violation overvoltage, [])
                      | undervoltage ↦ (violation undervoltage, [])
                      | overcurrent ↦ (violation overcurrent, [])
                      | overtemperature ↦ (violation overtemperature, [])
                    ]
                  ]
            ]
          ]
        ]
      ]
