-- ===== src/Safety/Guard.antt =====
-- test_control/battery_operation_sequence.py: `run_guarded` and `complete`. The storage, the
-- operation's own function and its summary fields are parameters.
pub mod Bookkeeping
use nipxi.Prelude.{ℕ, Bool, true, false, Option, none, some, List, [], ◌∷◌, ◌++◌}
use nipxi.Prelude.Exec.{Result, ok, err, Action, pure, raise, modify, ◌>>=◌, ◌>>◌}
use nipxi.Prelude.Int.{ℤ}
use nipxi.Hardware.Smu.{Session, Smu}
use nipxi.Hardware.RelayEth.{Transport, Matrix}
use nipxi.Safety.EmergencyStop.{emergency_stop, safe_cancel_shutdown}

-- The classes of utils/errors.py that `run_guarded` tells apart, any other Exception, and what is
-- no Exception, such as KeyboardInterrupt.
pub data Exception : Type 0 where
  cancelled safety_violation relay_fault timed_out unexpected : Exception
  no_exception_class : Exception

pub data StopReason : Type 0 where
  completed_reason failed_reason safety_reason timeout_reason cancelled_reason : StopReason

pub data RunResult : Type 0 where
  pass fail timeout stopped_by_operator : RunResult

pub data LogMessage : Type 0 where
  cancel_message fault_message monitor_triggered completed_message : LogMessage

-- The calls that change the database, and the call of `extra_run_summary_fields_fn`.
pub data StorageCall : Type 0 where
  log_event : LogMessage → StorageCall
  record_execution_state : StopReason → StorageCall
  extra_fields : StorageCall
  finish_run_summary : StopReason → RunResult → Option ℤ → StorageCall

pub record Drivers (S T : Type 0) : Type 0 where
  pub smu : Smu S
  pub relay : Matrix T

-- The drivers, the rows that are written, and the readings of the DMM, which the scan counts.
pub record Station (S T : Type 0) : Type 0 where
  pub drivers : Drivers S T
  pub records : List StorageCall
  pub readings : ℕ

abbrev pub Op : Type 0 → Type 0 → Type 0 → Type 0
Op S T A = Action Exception (Station S T) A

module _ {S T : Type 0} (dev : Session S) (net : Transport T) where
  -- The calls of the two shutdowns, which raise nothing.
  unfoldable pub call_emergency_stop : Op S T (Unit {0})
  call_emergency_stop st =
      let stopped = emergency_stop dev net st.drivers.smu st.drivers.relay in
      (ok tt, record st { drivers = record { smu = stopped.smu; relay = stopped.relay_matrix } })

  unfoldable pub call_safe_cancel_shutdown : Op S T (Unit {0})
  call_safe_cancel_shutdown st =
      let stopped = safe_cancel_shutdown dev net st.drivers.smu st.drivers.relay in
      (ok tt, record st { drivers = record { smu = stopped.smu; relay = stopped.relay_matrix } })

module _ {S T : Type 0} (dev : Session S) (net : Transport T)
    (storage : StorageCall → Option Exception) (final_voltage : Option ℤ) where
  -- A call that may raise before it has written anything.
  unfoldable pub store : StorageCall → Op S T (Unit {0})
  store call st = elim (storage call) [
    | none ↦ (ok tt, record st { records = st.records ++ call ∷ [] })
    | some e ↦ (err e, st)
  ]

  -- What every `except` clause does between its events and its shutdown.
  abbrev pub end_run : StopReason → RunResult → Op S T (Unit {0})
  end_run reason result =
      store (record_execution_state reason)
      >> store extra_fields
      >> store (finish_run_summary reason result final_voltage)

  -- The `except` clauses; what is no Exception has none.
  unfoldable pub handle : {A : Type 0} → Exception → Op S T A
  handle cancelled =
      store (log_event cancel_message)
      >> end_run cancelled_reason stopped_by_operator
      >> call_safe_cancel_shutdown dev net
      >> raise cancelled
  handle safety_violation =
      store (log_event fault_message)
      >> store (log_event monitor_triggered)
      >> end_run safety_reason fail
      >> call_emergency_stop dev net
      >> raise safety_violation
  handle relay_fault =
      store (log_event fault_message)
      >> end_run failed_reason fail
      >> call_emergency_stop dev net
      >> raise relay_fault
  handle timed_out =
      store (log_event fault_message)
      >> end_run timeout_reason timeout
      >> call_emergency_stop dev net
      >> raise timed_out
  handle unexpected =
      store (log_event fault_message)
      >> end_run failed_reason fail
      >> call_emergency_stop dev net
      >> raise unexpected
  handle no_exception_class = raise no_exception_class

  unfoldable pub run_guarded : {A : Type 0} → Op S T A → Op S T A
  run_guarded fn st = let (r, st') = fn st in elim r [ ok a ↦ (ok a, st') | err e ↦ handle e st' ]

  unfoldable pub complete : Op S T (Unit {0})
  complete =
      store (record_execution_state completed_reason)
      >> store (finish_run_summary completed_reason pass none)
      >> store (log_event completed_message)
