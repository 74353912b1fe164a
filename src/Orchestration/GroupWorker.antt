-- ===== src/Orchestration/GroupWorker.antt =====
-- orchestration/group_worker.py and orchestration/group_runtime.py: one worker plan on one thread,
-- with everything that escapes it reported to the fault bus. What the hardware, the storage and the
-- caller's `run_group` do are the fields of `Surroundings`.
pub mod Reports
use nipxi.Prelude.{
  ℕ, Bool, true, false, not, ◌&&◌, Option, none, some, List, [], ◌∷◌, ◌++◌, if◌then◌else◌,
}
use nipxi.Prelude.Exec.{Result, ok, err}
use nipxi.Orchestration.Workers.{Name, WorkerPlan}
use nipxi.Orchestration.Lifecycle.{LifecycleError}
use nipxi.Orchestration.Supervisor.{GroupRun, SequentialSupervisor, start, status}
use nipxi.Orchestration.Supervisor
use nipxi.Orchestration.FaultBus.{
  Reason, connect_failed, unexpected_connect_error, uncaught_exception, disconnect_failed,
  run_group_failed,
}

-- What a call that may raise does.
pub data Call : Type 0 where
  fine : Call
  raises : Call

-- `HardwareInitError`, and any other exception.
pub data ConnectError : Type 0 where
  init_error : ConnectError
  other_error : ConnectError

-- What `open_storage_guarded` does: it returns the storage; or it catches an OSError or an
-- sqlite3.Error, disconnects the hardware and returns None; or another exception escapes it.
pub data StorageOpening : Type 0 where
  opened unavailable escapes : StorageOpening

-- How the calls of one run of the thread come out: `connect_all`, `open_storage_guarded`,
-- `disconnect_all`, `storage.close`, and whether the worker's token has a request when `_run` looks
-- at it.
pub record Surroundings : Type 0 where
  pub connect_all : Option ConnectError
  pub open_storage : StorageOpening
  pub disconnect_all : Call
  pub storage_close : Call
  pub run_group : Name → GroupRun
  pub cancellation_requested : Bool

-- `hardware_connected` holds from `connect_all` until `disconnect_all` is called.
pub record GroupRuntime : Type 0 where
  pub worker_plan : WorkerPlan
  pub hardware_connected : Bool
  pub storage : Bool

unfoldable pub connect : Surroundings → GroupRuntime → Result ConnectError (Unit {0}) × GroupRuntime
connect env r = elim env.connect_all [
  | some e ↦ (err e, record r { hardware_connected = false })
  | none ↦ elim env.open_storage [
    | opened ↦ (ok tt, record r { hardware_connected = true; storage = true })
    | escapes ↦ (err other_error, record r { hardware_connected = true; storage = false })
    | unavailable ↦ elim env.disconnect_all [
      | fine ↦ (err init_error, record r { hardware_connected = false; storage = false })
      | raises ↦ (err other_error, record r { hardware_connected = false; storage = false })
    ]
  ]
]

-- `disconnect`: what raises, and the runtime that is left. The storage is closed first.
unfoldable pub disconnect : Surroundings → GroupRuntime → Call × GroupRuntime
disconnect env r =
    let closed = record r { storage = false } in
    let rest : Call × GroupRuntime =
      (env.disconnect_all, record closed { hardware_connected = false }) in
    if r.storage then elim env.storage_close [ raises ↦ (raises, r) | fine ↦ rest ] else rest

-- What `_run` leaves: the reports to the bus in their order, the supervisor and the runtime.
pub record Ran : Type 0 where
  pub reports : List Reason
  pub connect_failed_flag : Bool
  pub supervisor : SequentialSupervisor
  pub runtime : GroupRuntime

-- The second `try` of `_run`, its `else` part and its `except`.
unfoldable pub supervise : Surroundings → SequentialSupervisor → List Reason × SequentialSupervisor
unfolding status
supervise env supervisor =
    let (r, s) = start supervisor in
    elim r [
      | err _ ↦ (uncaught_exception ∷ [], s)
      | ok _ ↦ elim (status s).failed_group [
        | none ↦ ([], s)
        | some g ↦ (if env.cancellation_requested then [] else run_group_failed g ∷ [], s)
      ]
    ]

abbrev pub disconnect_reports : Call → List Reason
disconnect_reports fine = []
disconnect_reports raises = disconnect_failed ∷ []

unfoldable pub run : Surroundings → GroupRuntime → Ran
unfolding connect disconnect
run env r =
    let supervisor = Supervisor.new_supervisor r.worker_plan env.run_group in
    let (connected, r') = connect env r in
    elim connected [
      | err init_error ↦ record {
        reports = connect_failed ∷ [];
        connect_failed_flag = true;
        supervisor = supervisor;
        runtime = r';
      }
      | err other_error ↦ record {
        reports = unexpected_connect_error ∷ [];
        connect_failed_flag = true;
        supervisor = supervisor;
        runtime = r';
      }
      | ok _ ↦
          let (reports, s) = supervise env supervisor in
          let (ended, r'') = disconnect env r' in
          record {
            reports = reports ++ disconnect_reports ended;
            connect_failed_flag = false;
            supervisor = s;
            runtime = r'';
          }
    ]
