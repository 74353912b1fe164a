-- ===== src/Orchestration/WorkerTests.antt =====
-- Workers, claims, reports and threads on small runs.
use nipxi.Prelude.{
  ◌≡◌, refl, true, false, List, [], ◌∷◌, arith, none, some, lookup, nat_eq, if◌then◌else◌, ◌==◌,
}
use nipxi.Prelude.Exec.{ok, err}
use nipxi.Orchestration.Workers.{Name, WorkerPlan}
use nipxi.Orchestration.Lifecycle.{
  WorkerState, idle, discovered, ready, claiming, running, completed, failed, aborted, same_state,
  WorkerLifecycle, is_valid_transition, is_terminal,
}
use nipxi.Orchestration.Lifecycle
use nipxi.Orchestration.Supervisor.{
  Answer, returned, raised, GroupRun, SequentialSupervisor, start, stop, stops, status,
  SupervisorStatus, call_group, run_groups,
}
use nipxi.Orchestration.Supervisor
use nipxi.Orchestration.Supervisor.Outcome.{ending, start-ending}
use nipxi.Orchestration.Arbiter.{ClaimHandle, Claims, claim, busy}
use nipxi.Orchestration.Arbiter.Exclusion.{
  owner_of, run_calls, ask, give_back, exclusive_until_release,
}
use nipxi.Orchestration.FaultBus.{
  GlobalFaultBus, FaultReport, report_all, shows, report_all_lem, uncaught_exception,
  connect_failed,
}
use nipxi.Orchestration.FaultBus
use nipxi.Orchestration.GroupWorker.{opened, escapes, Surroundings, fine, raises, run}
use nipxi.Orchestration.GroupWorker.Reports.{new_runtime, run-hardware_connected}
use nipxi.Orchestration.Concurrent.{
  System, Run, here, next, wakes, stops as stops_now, begin, returned as result, normal_result,
  fault_result, waiting,
}
use nipxi.Orchestration.Concurrent.Shutdown.{
  StopTarget, unverified_safe, trigger, requested, trigger_lem,
}
use nipxi.Orchestration.Concurrent.Runs.{missed_fault}

abbrev plan : WorkerPlan
plan = record { smu_name = 1; groups = 11 ∷ 12 ∷ 13 ∷ []; shared_dependencies = [] }

-- Group 12 raises; the others succeed.
abbrev runs : Name → GroupRun
runs g = record { stops = 0; answer = if g == 12 then raised else returned true }

run_status : (status (start (Supervisor.new_supervisor plan runs)).1).completed_groups ≡ 11 ∷ []
unfolding start status Supervisor.new_supervisor run_groups call_group stops Lifecycle.transition_to
run_status = refl

start-ending_example :
    ((start (Supervisor.new_supervisor plan runs)).0 ≡ ok tt)
    × (status (start (Supervisor.new_supervisor plan runs)).1 ≡ record {
      smu_name = 1;
      state = failed;
      current_group = none;
      completed_groups = 11 ∷ [];
      failed_group = some 12;
    })
unfolding ending
start-ending_example = start-ending plan runs

abbrev held : Claims
held = (22, 1) ∷ (30, 2) ∷ []

abbrev handle : ClaimHandle
handle = record { resource_name = 22; owner = 1 }

exclusive_until_release_example :
    (owner_of 30 (run_calls (ask 30 1 ∷ give_back handle ∷ []) held) ≡ some 2)
    × ((claim 30 1 (run_calls (ask 30 1 ∷ give_back handle ∷ []) held)).0 ≡ err (busy 30 2 1))
exclusive_until_release_example =
    exclusive_until_release 30 2 1 (ask 30 1 ∷ give_back handle ∷ []) held refl (tt, (refl, tt))
      (omega arith)

abbrev faults : List FaultReport
faults =
    record { group_id = some 1; reason = uncaught_exception; reported_at = 7 }
    ∷ record { group_id = some 2; reason = connect_failed; reported_at = 6 }
    ∷ []

report_all_lem_example : report_all faults FaultBus.new_bus ≡ shows faults
report_all_lem_example = report_all_lem faults

-- The storage raises on being closed, after a group has failed.
abbrev surroundings : Surroundings
surroundings = record {
  connect_all = none;
  open_storage = opened;
  disconnect_all = raises;
  storage_close = fine;
  run_group = runs;
  cancellation_requested = false;
}

-- The same, where an exception escapes the opening of the storage.
abbrev broken : Surroundings
broken = record surroundings { open_storage = escapes }

run-hardware_connected_example : (run broken (new_runtime plan)).runtime.hardware_connected ≡ true
run-hardware_connected_example = run-hardware_connected broken plan

abbrev targets : List StopTarget
targets =
    record { group_id = 1; request_stop_raises = true; outlives_join = false }
    ∷ record { group_id = 2; request_stop_raises = false; outlives_join = true }
    ∷ []

trigger_lem_example :
    (requested (trigger targets).0 ≡ 1 ∷ 2 ∷ [])
    × (lookup 2 (trigger targets).1 ≡ some unverified_safe)
trigger_lem_example = trigger_lem 2 targets (refl, (refl, tt))

abbrev tripped_bus : GlobalFaultBus
tripped_bus = shows faults

abbrev at_wait : System
at_wait = record { workers = []; bus = tripped_bus; control = waiting }

abbrev at_end : System
at_end = record { workers = []; bus = tripped_bus; control = result (fault_result tripped_bus) }

fault_run : Run at_wait at_end
fault_run = next (next here (wakes [] tripped_bus refl)) (stops_now [] tripped_bus)

abbrev missed :
    (s : System) × Run (begin (1 ∷ 2 ∷ [])) s
    × (s.control ≡ result normal_result)
    × (s.bus.tripped ≡ true)
missed = missed_fault 1 (2 ∷ []) 5 uncaught_exception

missed_fault_example :
    (s : System) × Run (begin (1 ∷ 2 ∷ [])) s
    × (s.control ≡ result normal_result)
    × (s.bus.tripped ≡ true)
missed_fault_example = missed_fault 1 (2 ∷ []) 5 uncaught_exception
