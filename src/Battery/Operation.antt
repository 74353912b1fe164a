-- ===== src/Battery/Operation.antt =====
-- test_control/charge_sequence.py and discharge_sequence.py: `run`, from the relay that closes to the
-- relay that opens, under `run_guarded`.
pub mod Outcome
pub mod Energizing
use nipxi.Prelude.{ℕ, Bool, true, false, not, Option, none, some, List, [], ◌∷◌, if◌then◌else◌}
use nipxi.Prelude.Exec.{Result, ok, err, pure, raise, ◌>>=◌, ◌>>◌}
use nipxi.Prelude.Int.{ℤ}
use nipxi.Hardware.Smu.{Session, Smu, emergency_output_off, zero_output_setpoint_best_effort}
use nipxi.Hardware.RelayEth.{
  Transport, Matrix, Method, Error, relay_error, timeout_error, os_error, validation_error,
  reconnect_failed, state_verification_error, open_all, open_channel, close_channel,
}
use nipxi.Safety.Monitor.{
  Float, SafetyMonitor, BatteryCfg, Mode, charge, discharge, set_battery_limits, at_most,
}
use nipxi.Safety.Guard.{
  Exception, cancelled, safety_violation, relay_fault, timed_out, unexpected, no_exception_class,
  StorageCall, Station, Drivers, Op, run_guarded, complete,
}
use nipxi.Battery.Diagnostics.{reverse_polarity_threshold}
use nipxi.Battery.Sampling.{
  Judge, judge_charge, judge_discharge, cutoff_of, Round, Ending, end_reached, dmm_lost,
  device_error, battery_removed, storage_error, out_of_rounds, violation, Recorded, sample_loop,
}
use nipxi.Battery.Sampling

-- Where the operation writes to the database.
pub data Entry : Type 0 where
  started polarity_fault output_enabled output_disabled relay_opened : Entry

-- What the operation meets, beside the two drivers: `set_mode` and `output_enable` of the SMU (the
-- Boolean says that they did not raise), the voltage of the DMM before the output is enabled, and
-- the rounds of the loop. The sense channel of a group that has one is routed on a relay matrix of
-- its own: what is here is what connecting it, or logging that, raises; what its disconnection
-- raises is swallowed.
pub record Course (S : Type 0) : Type 0 where
  pub cancelled_before : Bool
  pub storage_raises : Entry → Bool
  pub sense_raises : Option Exception
  pub pre_enable_v : Option Float
  pub set_mode : Smu S → Bool × Smu S
  pub output_enable : Smu S → Bool × Smu S
  pub cancelled_in_stabilization : Bool
  pub rounds : List Round

-- The `except` clause of `run_guarded` that an error of the relay driver meets.
abbrev pub class_of : Error → Exception
class_of relay_error = relay_fault
class_of timeout_error = timed_out
class_of os_error = unexpected
class_of validation_error = unexpected
class_of reconnect_failed = relay_fault
class_of (state_verification_error _) = relay_fault

-- What the loop raises. A loop whose rounds have run out has raised nothing that is handled.
abbrev pub exception_of : Ending → Option Exception
exception_of end_reached = none
exception_of Sampling.timed_out = some timed_out
exception_of Sampling.cancelled = some cancelled
exception_of device_error = some unexpected
exception_of dmm_lost = some safety_violation
exception_of battery_removed = some safety_violation
exception_of storage_error = some unexpected
exception_of out_of_rounds = some no_exception_class
exception_of (violation _) = some safety_violation

module _ {S T : Type 0} where
  abbrev pub fail_if : Bool → Exception → Op S T (Unit {0})
  fail_if b e st = elim b [ true ↦ (err e, st) | false ↦ (ok tt, st) ]

  abbrev pub raise_any : Option Exception → Op S T (Unit {0})
  raise_any o st = elim o [ some e ↦ (err e, st) | none ↦ (ok tt, st) ]

  abbrev pub with_smu : Smu S → Station S T → Station S T
  with_smu smu st = record st { drivers = record { smu = smu; relay = st.drivers.relay } }

  abbrev pub with_relay : Matrix T → Station S T → Station S T
  with_relay relay st = record st { drivers = record { smu = st.drivers.smu; relay = relay } }

  -- A call on the relay driver.
  abbrev pub on_relay : Method T (Unit {0}) → Op S T (Unit {0})
  on_relay method st =
      let (r, relay) = method st.drivers.relay in
      elim r [
        | ok _ ↦ (ok tt, with_relay relay st)
        | err e ↦ (err (class_of e), with_relay relay st)
      ]

  -- A call on the SMU that raises an SMUError.
  abbrev pub on_smu : (Smu S → Bool × Smu S) → Op S T (Unit {0})
  on_smu call st =
      let (fine, smu) = call st.drivers.smu in
      if fine then (ok tt, with_smu smu st) else (err unexpected, with_smu smu st)

module _ {S T : Type 0} (dev : Session S) (net : Transport T) (judge : Judge) (timeout_s : ℤ)
    (mode : Mode) (monitor : SafetyMonitor) (settle_s relay_address : ℕ) (course : Course S) where
  -- The voltage before the output is enabled, and `_check_battery_polarity`.
  unfoldable pub check_battery_polarity : Op S T (Unit {0})
  check_battery_polarity st = elim course.pre_enable_v [
    | none ↦ (err unexpected, st)
    | some v ↦
        if at_most v reverse_polarity_threshold
        then if course.storage_raises polarity_fault
          then (err unexpected, st)
          else (err safety_violation, st)
        else (ok tt, st)
  ]

  -- Until the output is enabled and this is logged.
  unfoldable pub prepare : Op S T (Unit {0})
  prepare =
      fail_if course.cancelled_before cancelled
      >> on_relay (close_channel net settle_s relay_address)
      >> fail_if (course.storage_raises started) unexpected
      >> raise_any course.sense_raises
      >> check_battery_polarity
      >> on_smu course.set_mode
      >> on_smu course.output_enable
      >> fail_if (course.storage_raises output_enabled) unexpected

  -- How the wait and the loop end.
  abbrev pub loop_ending : Ending
  loop_ending =
      if course.cancelled_in_stabilization
      then Sampling.cancelled
      else (sample_loop judge timeout_s mode monitor 0 none course.rounds).0

  -- The loop and its `finally`: whether the output is verified off.
  unfoldable pub energized_phase : Op S T Bool
  energized_phase st =
      let (off, smu) = emergency_output_off dev st.drivers.smu in
      let st' = with_smu smu st in
      if course.storage_raises output_disabled
      then (err unexpected, st')
      else elim (exception_of loop_ending) [ some e ↦ (err e, st') | none ↦ (ok off, st') ]

  -- After a loop that ends with the output verified off.
  unfoldable pub open_relay : Op S T Bool
  open_relay =
      on_relay (open_channel net settle_s relay_address)
      >> fail_if (course.storage_raises relay_opened) unexpected
      >> λ st. (ok true, with_smu (zero_output_setpoint_best_effort dev st.drivers.smu).1 st)

  -- An output that is not verified off is raised, once all relays are commanded open.
  unfoldable pub finish_run : Bool → Op S T Bool
  finish_run false st = (err unexpected, with_relay (open_all net st.drivers.relay).1 st)
  finish_run true st = open_relay st

  -- The inner function `_run_charge`, `_run_discharge`.
  unfoldable pub operate : Op S T Bool
  operate = prepare >> energized_phase >>= finish_run

  -- `run`: the result of the guarded operation is returned once its completion is recorded.
  unfoldable pub run_position : (StorageCall → Option Exception) → Option ℤ → Op S T Bool
  run_position storage final_voltage =
      run_guarded dev net storage final_voltage operate >>= λ completed.
      complete dev net storage final_voltage >> pure completed

-- The setpoints of a group, and the settings that the sequences read.
pub record Setpoints : Type 0 where
  pub charge_current_a : ℤ
  pub charge_voltage_v : ℤ
  pub charge_timeout_s : ℤ
  pub charge_cutoff_a : ℤ
  pub discharge_cutoff_v : ℤ
  pub discharge_timeout_s : ℤ

-- `ChargeSequence.run` and `DischargeSequence.run`.
module _ {S T : Type 0} (dev : Session S) (net : Transport T) (p : Setpoints) (cfg : BatteryCfg)
    (monitor : SafetyMonitor) (settle_s relay_address : ℕ) (course : Course S)
    (storage : StorageCall → Option Exception) (final_voltage : Option ℤ) where
  unfoldable pub run_charge_sequence : Op S T Bool
  run_charge_sequence =
      run_position dev net (judge_charge p.charge_current_a p.charge_voltage_v p.charge_cutoff_a)
        p.charge_timeout_s charge (set_battery_limits (some cfg) monitor) settle_s relay_address
        course storage final_voltage

  unfoldable pub run_discharge_sequence : ℤ → Op S T Bool
  run_discharge_sequence floor_v =
      run_position dev net (judge_discharge (cutoff_of p.discharge_cutoff_v floor_v))
        p.discharge_timeout_s discharge (set_battery_limits (some cfg) monitor) settle_s
        relay_address course storage final_voltage
