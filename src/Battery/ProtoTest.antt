-- ===== src/Battery/ProtoTest.antt =====
-- test_control/proto_test_sequence.py: one relay after the other is closed, a voltage is sourced and
-- measured, and the relay is opened. Drawing the screen is left out.
pub mod Safe
use nipxi.Prelude.{ℕ, Bool, true, false, Option, none, some, List, [], ◌∷◌}
use nipxi.Prelude.Exec.{Result, ok, err, raise, modify, pure, ◌>>=◌, ◌>>◌}
use nipxi.Prelude.Int.{ℤ}
use nipxi.Hardware.Smu.{Session}
use nipxi.Hardware.Smu.Sourcing.{
  SmuError, operation_cancelled, smu_error, smu_state_verification_error, driver_error, Controls,
}
use nipxi.Hardware.Smu.PointSource.{SourcedPoint, source_dc_voltage_point}
use nipxi.Hardware.RelayEth.{Transport, open_channel, close_channel}
use nipxi.Safety.Monitor.{Float}
use nipxi.Safety.Guard.{
  Exception, cancelled, unexpected, no_exception_class, StorageCall, Station, Op,
  call_emergency_stop, call_safe_cancel_shutdown,
}
use nipxi.Battery.Operation.{fail_if, on_relay, with_smu}

-- Where the test writes to the database: at its start, for each relay, after an exception, and at its
-- end.
pub data ProtoEntry : Type 0 where
  run_started activating activated measurement_recorded state_active deactivated : ProtoEntry
  fault_logged fault_state fault_summary : ProtoEntry
  completed_state completed_summary completed_logged : ProtoEntry

-- What one relay meets. `_read_dmm` gives a voltage, or None, and raises only what logging it raises.
pub record ProtoCourse : Type 0 where
  pub relay_n : ℕ
  pub cancelled_before : Bool
  pub storage_raises : ProtoEntry → Bool
  pub dmm_voltage : Option Float
  pub dmm_log_raises : Bool
  pub cancelled_in_hold : Bool

-- The `except` clause that an error of the SMU meets.
abbrev pub class_of_smu : SmuError → Exception
class_of_smu smu_error = unexpected
class_of_smu smu_state_verification_error = unexpected
class_of_smu operation_cancelled = cancelled
class_of_smu driver_error = unexpected

module _ {S T : Type 0} (dev : Session S) (ctl : Controls S) (net : Transport T) (settle_s : ℕ)
    (voltage_v current_limit_a voltage_range_v : ℤ) where
  abbrev pub entry : ProtoCourse → ProtoEntry → Op S T (Unit {0})
  entry c e = fail_if (c.storage_raises e) unexpected

  abbrev pub read_dmm : ProtoCourse → Result SmuError (Option Float)
  read_dmm c = elim c.dmm_log_raises [ true ↦ err driver_error | false ↦ ok c.dmm_voltage ]

  abbrev pub sourced : ProtoCourse → Op S T (SourcedPoint (Option Float))
  sourced c st =
      let (r, smu) =
        source_dc_voltage_point dev ctl voltage_v current_limit_a voltage_range_v
          (some (read_dmm c)) c.cancelled_in_hold st.drivers.smu in
      elim r [
        | ok point ↦ (ok point, with_smu smu st)
        | err e ↦ (err (class_of_smu e), with_smu smu st)
      ]

  -- The `try` block.
  unfoldable pub test_relay : ProtoCourse → Op S T (Unit {0})
  test_relay c =
      fail_if c.cancelled_before cancelled
      >> on_relay (close_channel net settle_s c.relay_n)
      >> entry c activated
      >> sourced c
      >> entry c measurement_recorded
      >> entry c state_active

  -- `safe_cancel_shutdown` in the clause of a cancellation, `emergency_stop` in every other.
  unfoldable pub shut_down : Exception → Op S T (Unit {0})
  shut_down cancelled = call_safe_cancel_shutdown dev net
  shut_down _ = call_emergency_stop dev net

  -- An `except` clause.
  unfoldable pub handle_fault : ProtoCourse → Exception → Op S T (Unit {0})
  handle_fault c e =
      entry c fault_logged >> entry c fault_state >> entry c fault_summary >> shut_down e >> raise e

  -- The `try` statement with its `else`, in which nothing is handled.
  unfoldable pub test_guarded : ProtoCourse → Op S T (Unit {0})
  test_guarded c st =
      let (r, st') = test_relay c st in
      elim r [
        | ok _ ↦ (on_relay (open_channel net settle_s c.relay_n) >> entry c deactivated) st'
        | err no_exception_class ↦ (err no_exception_class, st')
        | err e ↦ handle_fault c e st'
      ]

  unfoldable pub test_relays : List ProtoCourse → Op S T (Unit {0})
  test_relays [] st = (ok tt, st)
  test_relays (c ∷ cs) st = (entry c activating >> test_guarded c >> test_relays cs) st

  -- `run`, where `at_ends` meets the writes at its start and its end.
  unfoldable pub run_proto_test : ProtoCourse → List ProtoCourse → Op S T (Unit {0})
  run_proto_test at_ends cs =
      entry at_ends run_started
      >> test_relays cs
      >> entry at_ends completed_state
      >> entry at_ends completed_summary
      >> entry at_ends completed_logged
