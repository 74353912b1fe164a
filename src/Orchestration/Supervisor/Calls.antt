-- ===== src/Orchestration/Supervisor/Calls.antt =====
-- One call of `run_group` in `start`: the supervisor in its fields, before and after.
use nipxi.Prelude.{
  ℕ, zero, suc, ◌≡◌, refl, Bool, true, false, Option, none, List, [], ◌∷◌, ◌++◌, if◌then◌else◌,
  arith, inl, inr, ◌⊎◌,
}
use nipxi.Prelude.Exec.{Result, ok, err, ◌>>◌}
use nipxi.Orchestration.Workers.{Name, WorkerPlan}
use nipxi.Orchestration.Lifecycle.{
  WorkerState, idle, discovered, ready, claiming, running, aborted, LifecycleError, transition_to,
}
use nipxi.Orchestration.Supervisor.{
  GroupRun, SequentialSupervisor, move, stop, stops, succeeded, call_group, finish, record_success,
  record_failure, run_groups,
}

-- A supervisor between two groups, in its fields.
abbrev pub at_state :
    WorkerPlan
    → (Name → GroupRun)
    → WorkerState
    → List WorkerState
    → Option Name
    → List Name
    → Bool
    → SequentialSupervisor
at_state plan run state history current done stopped = record {
  plan = plan;
  run_group = run;
  lifecycle = record { state = state; history = history };
  current_group = current;
  completed_groups = done;
  failed_group = none;
  stop_requested = stopped;
}

-- Calls of `stop()` beyond the first change nothing.
stops_aborted :
    (n : ℕ) (plan : WorkerPlan) (run : Name → GroupRun) (h : List WorkerState) (c : Option Name)
    (done : List Name)
    → stops n (at_state plan run aborted h c done true)
      ≡ (ok tt, at_state plan run aborted h c done true)
unfolding stops stop
stops_aborted zero plan run h c done = refl
stops_aborted (suc n) plan run h c done = stops_aborted n plan run h c done

stops_running :
    (n : ℕ) (plan : WorkerPlan) (run : Name → GroupRun) (h : List WorkerState) (c : Option Name)
    (done : List Name)
    → stops (suc n) (at_state plan run running h c done false)
      ≡ (ok tt, at_state plan run aborted (h ++ running ∷ []) c done true)
unfolding stops stop move transition_to
stops_running n plan run h c done = stops_aborted n plan run (h ++ running ∷ []) c done

pub ℕ-cases : (n : ℕ) → (n ≡ zero) ⊎ ((m : ℕ) × (n ≡ suc m))
ℕ-cases zero = inl refl
ℕ-cases (suc m) = inr (m, refl)

pub call_group_stopped :
    (g : Name) (m : ℕ) (plan : WorkerPlan) (run : Name → GroupRun) (h : List WorkerState)
    (c : Option Name) (done : List Name)
    → (run g).stops ≡ suc m
    → call_group g (at_state plan run running h c done false)
      ≡ (ok (succeeded (run g).answer), at_state plan run aborted (h ++ running ∷ []) c done true)
unfolding call_group
call_group_stopped g m plan run h c done e = ground (arith, stops_running m plan run h c done)

pub call_group_quiet :
    (g : Name) (plan : WorkerPlan) (run : Name → GroupRun) (h : List WorkerState) (c : Option Name)
    (done : List Name)
    → (run g).stops ≡ zero
    → call_group g (at_state plan run running h c done false)
      ≡ (ok (succeeded (run g).answer), at_state plan run running h c done false)
unfolding call_group
call_group_quiet g plan run h c done e = ground arith

-- What stands in the loop of `start` after the call of `run_group`.
abbrev pub after_call :
    Name
    → List Name
    → Result LifecycleError Bool × SequentialSupervisor
    → Result LifecycleError (Unit {0}) × SequentialSupervisor
after_call g gs (ok success, s) =
    (if s.stop_requested
        then finish
        else if success
        then (do record_success g; run_groups gs)
        else record_failure g)
      s
after_call g gs (err e, s) = (err e, s)

pub split_call :
    (g : Name) (gs : List Name) (x : Result LifecycleError Bool × SequentialSupervisor)
    → (elim x.0 as (λ _. Result LifecycleError (Unit {0}) × SequentialSupervisor) [
      | ok success ↦
          (if x.1.stop_requested
              then finish
              else if success
              then (do record_success g; run_groups gs)
              else record_failure g)
            x.1
      | err e ↦ (err e, x.1)
    ])
      ≡ after_call g gs x
split_call g gs (ok b, s) = refl
split_call g gs (err e, s) = refl

abbrev pub before_call : List WorkerState → List WorkerState
before_call h = (((h ++ idle ∷ []) ++ discovered ∷ []) ++ ready ∷ []) ++ claiming ∷ []
