-- ===== src/Orchestration/GroupWorker/Reports.antt =====
-- What a worker reports, for every way in which its calls can come out.
use nipxi.Prelude.{
  ◌≡◌, Bool, true, false, Option, none, some, List, [], ◌∷◌, ◌++◌, if◌then◌else◌, arith,
}
use nipxi.Orchestration.Workers.{Name, WorkerPlan}
use nipxi.Orchestration.Supervisor.{GroupRun, SequentialSupervisor, start, status}
use nipxi.Orchestration.Supervisor
use nipxi.Orchestration.Supervisor.Outcome.{ending}
use nipxi.Orchestration.FaultBus.{
  Reason, connect_failed, unexpected_connect_error, disconnect_failed, run_group_failed,
}
use nipxi.Orchestration.GroupWorker.{
  fine, raises, init_error, other_error, opened, unavailable, escapes, Surroundings, GroupRuntime,
  disconnect_reports, run,
}

-- The report of a failed group, unless the worker's own cancellation ended it.
abbrev pub failure_reports : Bool → Option Name → List Reason
failure_reports cancelled none = []
failure_reports cancelled (some g) = if cancelled then [] else run_group_failed g ∷ []

-- The reports that a run of the thread should make.
abbrev pub expected : Surroundings → WorkerPlan → List Reason
expected env plan = elim env.connect_all [
  | some init_error ↦ connect_failed ∷ []
  | some other_error ↦ unexpected_connect_error ∷ []
  | none ↦ elim env.open_storage [
    | opened ↦
        failure_reports env.cancellation_requested (ending env.run_group plan.groups).failed_group
        ++ (elim env.storage_close [
          | raises ↦ disconnect_failed ∷ []
          | fine ↦ disconnect_reports env.disconnect_all
        ])
    | unavailable ↦ elim env.disconnect_all [
      | fine ↦ connect_failed ∷ []
      | raises ↦ unexpected_connect_error ∷ []
    ]
    | escapes ↦ unexpected_connect_error ∷ []
  ]
]

abbrev pub new_runtime : WorkerPlan → GroupRuntime
new_runtime plan = record { worker_plan = plan; hardware_connected = false; storage = false }

-- The thread of a new worker whose hardware connected ends with it still connected, `disconnect_all`
-- not called, exactly when an exception escapes the opening of the storage, or it was opened and
-- closing it raises; one whose hardware did not connect leaves none connected.
pub run-hardware_connected :
    (env : Surroundings) (plan : WorkerPlan)
    → (run env (new_runtime plan)).runtime.hardware_connected ≡ (elim env.connect_all [
      | some _ ↦ false
      | none ↦ elim env.open_storage [
        | opened ↦ elim env.storage_close [ raises ↦ true | fine ↦ false ]
        | unavailable ↦ false
        | escapes ↦ true
      ]
    ])
unfolding run
run-hardware_connected env plan = ground arith
