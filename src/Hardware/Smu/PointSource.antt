-- ===== src/Hardware/Smu/PointSource.antt =====
-- hardware/smu.py: `source_dc_voltage_point`, the one-point voltage source of the prototype test.
pub mod Ends
use nipxi.Prelude.{Bool, true, false, Option, none, some}
use nipxi.Prelude.Exec.{Result, ok, err, pure, ◌>>=◌, ◌>>◌}
use nipxi.Prelude.Int.{ℤ}
use nipxi.Safety.Monitor.{Float}
use nipxi.Hardware.Smu.{Instrument, Session, output_disable, verify_output_disabled}
use nipxi.Hardware.Smu.Sourcing.{
  SmuError, smu_error, smu_state_verification_error, operation_cancelled, driver_error, dc_voltage,
  voltage_level_range, current_limit, voltage_level, voltage, current, Controls, Call, on_session,
  verify_config_readback, safe_baseline,
}

-- What `source_dc_voltage_point` returns, less the setpoints it was given.
pub record SourcedPoint (D : Type 0) : Type 0 where
  pub readback_v : Float
  pub readback_current_limit_a : Float
  pub output_enabled_readback : Bool
  pub in_compliance : Bool
  pub measured_v : Float
  pub measured_i : Float
  pub during_hold_result : Option D

pub record Acquired (D : Type 0) : Type 0 where
  pub in_compliance : Bool
  pub measured_v : Float
  pub measured_i : Float
  pub during_hold_result : Option D

-- `during_hold` is the reading that the caller takes, if it gives one, or what that raises; it has no
-- access to the SMU.
module _ {S D : Type 0} (dev : Session S) (ctl : Controls S)
    (voltage_v current_limit_a voltage_range_v : ℤ) (during_hold : Option (Result SmuError D))
    (cancelled_in_hold : Bool) where
  unfoldable pub configure_point : Instrument S (Unit {0})
  configure_point =
      ctl.set_output_function dc_voltage
      >> ctl.set_single_point
      >> ctl.set voltage_level_range voltage_range_v
      >> ctl.set current_limit current_limit_a
      >> ctl.set voltage_level voltage_v
      >> ctl.enable
      >> dev.commit

  abbrev pub hold : Call S (Option D)
  hold smu = elim during_hold [
    | none ↦ (ok none, smu)
    | some r ↦ elim r [ ok d ↦ (ok (some d), smu) | err e ↦ (err e, smu) ]
  ]

  abbrev pub hold_sleep : Call S (Unit {0})
  hold_sleep smu = elim cancelled_in_hold [
    | true ↦ (err operation_cancelled, smu)
    | false ↦ (ok tt, smu)
  ]

  -- The `with` block of `initiate`.
  unfoldable pub acquire : Call S (Acquired D)
  acquire = on_session driver_error ctl.query_in_compliance >>= λ in_compliance.
      on_session driver_error (ctl.measure_one voltage) >>= λ measured_v.
      on_session driver_error (ctl.measure_one current) >>= λ measured_i. hold >>= λ held.
      hold_sleep
      >> pure record {
        in_compliance = in_compliance;
        measured_v = measured_v;
        measured_i = measured_i;
        during_hold_result = held;
      }

  -- It ends the acquisition however the block ends; what that raises takes the place of its error.
  unfoldable pub acquire_initiated : Call S (Acquired D)
  acquire_initiated smu =
      let (started, smu1) = on_session driver_error ctl.initiate smu in
      elim started [
        | err e ↦ (err e, smu1)
        | ok _ ↦
            let (r, smu2) = acquire smu1 in
            let (ended, smu3) = on_session driver_error ctl.end_acquisition smu2 in
            elim ended [ ok _ ↦ (r, smu3) | err e ↦ (err e, smu3) ]
      ]

  abbrev pub record_output_state : Bool → Call S (Unit {0})
  record_output_state on smu = (ok tt, record smu { last_known_output_state = some on })

  abbrev pub verify_output_on : Bool → Call S (Unit {0})
  verify_output_on on smu = elim on [
    | true ↦ (ok tt, smu)
    | false ↦ (err smu_state_verification_error, smu)
  ]

  -- The second `try` block.
  unfoldable pub source_and_measure : Call S (SourcedPoint D)
  source_and_measure = on_session driver_error (ctl.get voltage_level) >>= λ readback_v.
      on_session driver_error (ctl.get current_limit) >>= λ readback_current_limit_a.
      on_session driver_error dev.output_enabled >>= λ on.
      verify_config_readback voltage_v readback_v
      >> verify_config_readback current_limit_a readback_current_limit_a
      >> verify_output_on on
      >> record_output_state on
      >> acquire_initiated
      >>= λ acquired. pure record {
        readback_v = readback_v;
        readback_current_limit_a = readback_current_limit_a;
        output_enabled_readback = on;
        in_compliance = acquired.in_compliance;
        measured_v = acquired.measured_v;
        measured_i = acquired.measured_i;
        during_hold_result = acquired.during_hold_result;
      }

  -- The `except` clauses.
  abbrev pub reraised : {A : Type 0} → Result SmuError A → Result SmuError A
  reraised (ok a) = ok a
  reraised (err smu_error) = err smu_error
  reraised (err smu_state_verification_error) = err smu_state_verification_error
  reraised (err operation_cancelled) = err operation_cancelled
  reraised (err driver_error) = err smu_error

  -- That block and its `finally`; an output that is not verified off is only logged.
  unfoldable pub source_then_disable : Call S (SourcedPoint D)
  source_then_disable smu =
      let (r, smu1) = source_and_measure smu in
      let (off, smu2) = output_disable dev smu1 in
      elim off [
        | err _ ↦ (err smu_error, smu2)
        | ok _ ↦ (reraised r, (verify_output_disabled dev smu2).1)
      ]

  abbrev pub refuse_compliance : SourcedPoint D → Call S (SourcedPoint D)
  refuse_compliance p smu = elim p.in_compliance [
    | true ↦ (err smu_error, smu)
    | false ↦ (ok p, smu)
  ]

  unfoldable pub source_dc_voltage_point : Call S (SourcedPoint D)
  source_dc_voltage_point =
      safe_baseline dev ctl
        (on_session smu_error configure_point >> source_then_disable >>= refuse_compliance)
