-- ===== src/Orchestration/Supervisor.antt =====
-- orchestration/supervisor.py: `SequentialSupervisor`, one worker's groups in order, in one thread.
pub mod Calls
pub mod Outcome
use nipxi.Prelude.{
  ℕ, zero, suc, Bool, true, false, not, ◌&&◌, Option, none, some, List, [], ◌∷◌, ◌++◌,
  if◌then◌else◌,
}
use nipxi.Prelude.Exec.{Result, ok, err, Action, pure, gets, modify, ◌>>=◌, ◌>>◌}
use nipxi.Orchestration.Workers.{Name, WorkerPlan}
use nipxi.Orchestration.Lifecycle.{
  WorkerState, idle, discovered, ready, claiming, running, completed, failed, aborted, same_state,
  LifecycleError, WorkerLifecycle, transition_to,
}
use nipxi.Orchestration.Lifecycle

-- What a call of the injected `run_group` does: how often it calls `stop()`, and how it ends.
pub data Answer : Type 0 where
  returned : Bool → Answer
  raised : Answer

pub record GroupRun : Type 0 where
  pub stops : ℕ
  pub answer : Answer

pub record SequentialSupervisor : Type 0 where
  pub plan : WorkerPlan
  pub run_group : Name → GroupRun
  pub lifecycle : WorkerLifecycle
  pub current_group : Option Name
  pub completed_groups : List Name
  pub failed_group : Option Name
  pub stop_requested : Bool

abbrev pub Method : Type 0 → Type 0
Method = Action LifecycleError SequentialSupervisor

-- `SequentialSupervisor(worker_plan, run_group)`
unfoldable pub new_supervisor : WorkerPlan → (Name → GroupRun) → SequentialSupervisor
new_supervisor plan run_group = record {
  plan = plan;
  run_group = run_group;
  lifecycle = Lifecycle.new_lifecycle;
  current_group = none;
  completed_groups = [];
  failed_group = none;
  stop_requested = false;
}

-- `self._lifecycle.transition_to(state)`
unfoldable pub move : WorkerState → Method (Unit {0})
move next s =
    let (r, w) = transition_to next s.lifecycle in
    (elim r [ ok _ ↦ ok tt | err e ↦ err e ], record s { lifecycle = w })

unfoldable pub stop : Method (Unit {0})
unfolding move
stop s =
    let s' = record s { stop_requested = true } in
    if same_state s'.lifecycle.state running then move aborted s' else (ok tt, s')

-- The calls of `stop()` from inside `run_group`.
unfoldable pub stops : ℕ → Method (Unit {0})
stops zero = pure tt
stops (suc n) = stop >> stops n

abbrev pub succeeded : Answer → Bool
succeeded (returned b) = b
succeeded raised = false

-- `try: success = self._run_group(group_name) except Exception: success = False`
unfoldable pub call_group : Name → Method Bool
unfolding stops
call_group group_name s =
    let (r, s') = stops (s.run_group group_name).stops s in
    elim r [ ok _ ↦ (ok (succeeded (s.run_group group_name).answer), s') | err _ ↦ (ok false, s') ]

-- What stands after the loop of `start`.
unfoldable pub finish : Method (Unit {0})
unfolding move
finish s =
    let s' = record s { current_group = none } in
    if s'.stop_requested && not (same_state s'.lifecycle.state aborted)
    then move aborted s'
    else (ok tt, s')

unfoldable pub record_success : Name → Method (Unit {0})
unfolding move
record_success group_name = do
  modify (λ s. record s { completed_groups = s.completed_groups ++ group_name ∷ [] })
  move completed
  move idle

unfoldable pub record_failure : Name → Method (Unit {0})
unfolding move
record_failure group_name = do
  modify (λ s. record s { failed_group = some group_name })
  move failed
  modify (λ s. record s { current_group = none })

-- What stands in the loop of `start` before the call of `run_group`.
unfoldable pub take_up : Name → Method (Unit {0})
unfolding move
take_up group_name = do
  move discovered
  move ready
  modify (λ s. record s { current_group = some group_name })
  move claiming
  move running

unfoldable pub run_groups : List Name → Method (Unit {0})
unfolding take_up record_success record_failure finish
run_groups [] = finish
run_groups (group_name ∷ rest) = do
  stopped_before ← gets (λ s. s.stop_requested)
  if stopped_before then finish else do
    take_up group_name
    success ← call_group group_name
    stopped ← gets (λ s. s.stop_requested)
    if stopped
        then finish
        else if success
        then (do record_success group_name; run_groups rest)
        else record_failure group_name

unfoldable pub start : Method (Unit {0})
unfolding move run_groups
start s = if s.stop_requested then move aborted s else run_groups s.plan.groups s

pub record SupervisorStatus : Type 0 where
  pub smu_name : Name
  pub state : WorkerState
  pub current_group : Option Name
  pub completed_groups : List Name
  pub failed_group : Option Name

unfoldable pub status : SequentialSupervisor → SupervisorStatus
status s = record {
  smu_name = s.plan.smu_name;
  state = s.lifecycle.state;
  current_group = s.current_group;
  completed_groups = s.completed_groups;
  failed_group = s.failed_group;
}
