-- ===== src/Battery/Monitoring.antt =====
-- test_control/monitor_battery_sequence.py: a battery watched until the operator stops it. Drawing the
-- screen is left out.
pub mod Watch
use nipxi.Prelude.{
  ℕ, ◌+◌, Bool, true, false, not, ◌&&◌, ◌||◌, Option, none, some, List, [], ◌∷◌, if◌then◌else◌,
}
use nipxi.Prelude.Exec.{Result, ok, err, raise, ◌>>=◌, ◌>>◌}
use nipxi.Prelude.Int.{ℤ, pos, ltb_ℤ, neg, ◌-ℤ◌}
use nipxi.Hardware.Smu.{Session}
use nipxi.Hardware.RelayEth.{Transport, close_channel}
use nipxi.Safety.Monitor.{
  Float, BatteryCfg, SafetyMonitor, SafetyStatus, safe, set_battery_limits, check_temperature,
}
use nipxi.Safety.Guard.{
  Exception, cancelled, safety_violation, unexpected, no_exception_class, StorageCall, Station, Op,
  run_guarded,
}
use nipxi.Battery.Temperature.{
  NtcPresence, present, absent, fault, classify_ntc_presence, temperature_of,
}
use nipxi.Battery.Operation.{fail_if, on_relay}

-- `_VoltageStats` of finite voltages; `total` is the `_sum`.
pub record VoltageStats : Type 0 where
  pub start_voltage : Option ℤ
  pub end_voltage : Option ℤ
  pub min_voltage : Option ℤ
  pub max_voltage : Option ℤ
  pub total : ℤ
  pub sample_count : ℕ

abbrev pub no_voltages : VoltageStats
no_voltages = record {
  start_voltage = none;
  end_voltage = none;
  min_voltage = none;
  max_voltage = none;
  total = pos 0;
  sample_count = 0;
}

abbrev pub least_of : Option ℤ → ℤ → ℤ
least_of none v = v
least_of (some m) v = if ltb_ℤ v m then v else m

abbrev pub greatest_of : Option ℤ → ℤ → ℤ
greatest_of none v = v
greatest_of (some m) v = if ltb_ℤ m v then v else m

abbrev pub first_of : Option ℤ → ℤ → ℤ
first_of none v = v
first_of (some start) v = start

unfoldable pub add_voltage : Option ℤ → VoltageStats → VoltageStats
add_voltage o s = elim o [
  | none ↦ s
  | some v ↦ record {
    start_voltage = some (first_of s.start_voltage v);
    end_voltage = some v;
    min_voltage = some (least_of s.min_voltage v);
    max_voltage = some (greatest_of s.max_voltage v);
    total = s.total -ℤ neg v;
    sample_count = s.sample_count + 1;
  }
]

-- What the DAQ gives of the NTC: there is none, a voltage, a DAQError, or another exception.
pub data NtcReading : Type 0 where
  no_ntc daq_error daq_other : NtcReading
  ntc_voltage : ℤ → NtcReading

-- One round of the loop. The DMM gives a finite voltage or raises.
pub record MonitorRound : Type 0 where
  pub cancelled_at_check : Bool
  pub dmm_voltage : Option ℤ
  pub ntc : NtcReading
  pub log_raises : Bool
  pub record_raises : Bool
  pub cancelled_in_sleep : Bool

abbrev pub same_state : Option NtcPresence → NtcPresence → Bool
same_state (some present) present = true
same_state (some absent) absent = true
same_state (some fault) fault = true
same_state _ _ = false

-- A sample that was recorded, and how the loop ends: what it raises, the samples, the NTC states that
-- it logged, and the statistics.
pub record Watched : Type 0 where
  pub voltage : ℤ
  pub temp_c : Option Float

pub record Outcome : Type 0 where
  pub raised : Exception
  pub recorded : List Watched
  pub logged : List NtcPresence
  pub stats : VoltageStats

abbrev pub ends_with : Exception → VoltageStats → Outcome
ends_with e stats = record { raised = e; recorded = []; logged = []; stats = stats }

abbrev pub is_present : NtcPresence → Bool
is_present present = true
is_present absent = false
is_present fault = false

module _ (beta : ℤ → ℤ) (monitor : SafetyMonitor) where
  -- The state of the NTC after a reading, and the temperature, which is None unless it is present; a
  -- DAQError has the state of a fault.
  abbrev pub state_of : Option NtcPresence → NtcReading → Option NtcPresence
  state_of last no_ntc = last
  state_of last daq_error = some fault
  state_of last daq_other = last
  state_of last (ntc_voltage v) = some (classify_ntc_presence beta v)

  abbrev pub temp_of : NtcReading → Option Float
  temp_of no_ntc = none
  temp_of daq_error = none
  temp_of daq_other = none
  temp_of (ntc_voltage v) = temperature_of beta v

  -- The state that the reading logs.
  abbrev pub warning_of : Option NtcPresence → NtcReading → Option NtcPresence
  warning_of last no_ntc = none
  warning_of last daq_error = if same_state last fault then none else some fault
  warning_of last daq_other = none
  warning_of last (ntc_voltage v) =
      let presence = classify_ntc_presence beta v in
      if is_present presence || same_state last presence then none else some presence

  abbrev pub is_other : NtcReading → Bool
  is_other daq_other = true
  is_other _ = false

  abbrev pub is_some : Option NtcPresence → Bool
  is_some none = false
  is_some (some _) = true

  abbrev pub with_warning : Option NtcPresence → Outcome → Outcome
  with_warning none o = o
  with_warning (some w) o = record o { logged = w ∷ o.logged }

  abbrev pub with_sample : Watched → Outcome → Outcome
  with_sample w o = record o { recorded = w ∷ o.recorded }

  abbrev pub is_safe_temperature : Option Float → Bool
  is_safe_temperature t = elim (check_temperature monitor t) [ safe ↦ true | _ ↦ false ]

  -- The `while True` loop: a list of rounds that ends first has raised nothing that is handled.
  unfoldable pub monitor_loop : Option NtcPresence → VoltageStats → List MonitorRound → Outcome
  monitor_loop last stats [] = ends_with no_exception_class stats
  monitor_loop last stats (r ∷ rs) =
      let warning = warning_of last r.ntc in
      let stats' = add_voltage r.dmm_voltage stats in
      let rest = monitor_loop (state_of last r.ntc) stats' rs in
      elim r.cancelled_at_check [
        | true ↦ ends_with cancelled stats
        | false ↦ elim r.dmm_voltage [
          | none ↦ ends_with unexpected stats
          | some v ↦ elim (is_other r.ntc || (is_some warning && r.log_raises)) [
            | true ↦ ends_with unexpected stats
            | false ↦ with_warning warning (elim (is_safe_temperature (temp_of r.ntc)) [
              | false ↦ ends_with safety_violation stats
              | true ↦ elim r.record_raises [
                | true ↦ ends_with unexpected stats'
                | false ↦
                    with_sample record { voltage = v; temp_c = temp_of r.ntc }
                      (elim r.cancelled_in_sleep [
                        | true ↦ ends_with cancelled stats'
                        | false ↦ rest
                      ])
              ]
            ])
          ]
        ]
      ]

-- Where the operation writes to the database before its loop.
pub data MonitorEntry : Type 0 where
  relay_activated relay_close source_named state_active : MonitorEntry

module _ {S T : Type 0} (dev : Session S) (net : Transport T) (beta : ℤ → ℤ)
    (monitor : SafetyMonitor) (settle_s relay_address : ℕ) (cancelled_before : Bool)
    (storage_raises : MonitorEntry → Bool) (rounds : List MonitorRound) where
  -- `_loop`
  unfoldable pub watch : Op S T (Unit {0})
  watch =
      fail_if cancelled_before cancelled
      >> on_relay (close_channel net settle_s relay_address)
      >> fail_if (storage_raises relay_activated) unexpected
      >> fail_if (storage_raises relay_close) unexpected
      >> fail_if (storage_raises source_named) unexpected
      >> fail_if (storage_raises state_active) unexpected
      >> raise (monitor_loop beta monitor none no_voltages rounds).raised

  -- `MonitorBatterySequence.run`, where the summary fields are those of `stats`.
  unfoldable pub run_monitor : (StorageCall → Option Exception) → Option ℤ → Op S T (Unit {0})
  run_monitor storage final_voltage = run_guarded dev net storage final_voltage watch
