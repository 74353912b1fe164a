-- ===== src/Orchestration/Supervisor/Outcome.antt =====
-- What `start` does, against a description that has no states.
use nipxi.Prelude.{
  ℕ, zero, suc, ◌≡◌, refl, sym, ◌∙◌, Bool, true, false, Option, none, some, List, [], ◌∷◌, ◌++◌,
  if◌then◌else◌, append-nil, append_assoc, arith, Bool-cases, inl, inr,
}
use nipxi.Prelude.Exec.{Result, ok, ◌>>◌}
use nipxi.Orchestration.Workers.{Name, WorkerPlan}
use nipxi.Orchestration.Lifecycle.{
  WorkerState, idle, running, completed, failed, aborted, LifecycleError, transition_to,
}
use nipxi.Orchestration.Supervisor.{
  GroupRun, SequentialSupervisor, new_supervisor, move, stop, succeeded, call_group, finish,
  record_success, record_failure, run_groups, start, SupervisorStatus, status,
}
use nipxi.Orchestration.Supervisor.Calls.{
  at_state, ℕ-cases, call_group_stopped, call_group_quiet, after_call, split_call, before_call,
}

-- How a plan ends: the groups that completed, the one that failed, and whether a stop ended it.
pub record Ending : Type 0 where
  pub completed_groups : List Name
  pub failed_group : Option Name
  pub stopped : Bool

abbrev stops_of : (Name → GroupRun) → Name → Bool
stops_of run g = elim (run g).stops [ zero ↦ false | suc _ ↦ true ]

-- Groups run in order until one calls `stop()`, fails or raises.
unfoldable pub ending : (Name → GroupRun) → List Name → Ending
ending run [] = record { completed_groups = []; failed_group = none; stopped = false }
ending run (g ∷ gs) =
    let e = ending run gs in
    elim (run g).stops [
      | suc _ ↦ record { completed_groups = []; failed_group = none; stopped = true }
      | zero ↦
          if succeeded (run g).answer
          then record e { completed_groups = g ∷ e.completed_groups }
          else record { completed_groups = []; failed_group = some g; stopped = false }
    ]

abbrev pub final_state : Ending → WorkerState
final_state e = if e.stopped then aborted else elim e.failed_group [ none ↦ idle | some _ ↦ failed ]

-- The status of a worker that began idle with `before` completed, by how its plan ended.
abbrev Ends :
    WorkerPlan
    → List Name
    → Ending
    → Result LifecycleError (Unit {0}) × SequentialSupervisor
    → Type 0
Ends plan before e (r, s) =
    (r ≡ ok tt)
    × (s.lifecycle.state ≡ final_state e)
    × (s.completed_groups ≡ before ++ e.completed_groups)
    × (s.failed_group ≡ e.failed_group)
    × (s.current_group ≡ none)
    × (s.stop_requested ≡ e.stopped)
    × (s.plan ≡ plan)

module _ (run : Name → GroupRun) (g : Name) (gs : List Name) where
  ending_stopped :
      (m : ℕ)
      → (run g).stops ≡ suc m
      → ending run (g ∷ gs) ≡ record { completed_groups = []; failed_group = none; stopped = true }
  unfolding ending
  ending_stopped m e = ground arith

  ending_quiet :
      (run g).stops ≡ zero
      → ending run (g ∷ gs) ≡ (
          if succeeded (run g).answer
          then record (ending run gs) { completed_groups = g ∷ (ending run gs).completed_groups }
          else record { completed_groups = []; failed_group = some g; stopped = false })
  unfolding ending
  ending_quiet e = ground arith

module _ (plan : WorkerPlan) (run : Name → GroupRun) where
  run_groups-cons :
      (g : Name) (gs : List Name) (h : List WorkerState) (c : Option Name) (done : List Name)
      → run_groups (g ∷ gs) (at_state plan run idle h c done false)
        ≡ after_call g gs
            (call_group g (at_state plan run running (before_call h) (some g) done false))
  unfolding run_groups transition_to
  run_groups-cons g gs h c done =
      split_call g gs (call_group g (at_state plan run running (before_call h) (some g) done false))

  success-Ends :
      (g : Name) (gs : List Name) (h : List WorkerState) (done : List Name)
      → Ends plan (done ++ g ∷ []) (ending run gs) (
          run_groups gs (
            at_state plan run idle
              ((h ++ running ∷ []) ++ completed ∷ [])
              (some g)
              (done ++ g ∷ [])
              false))
      → Ends plan done
          (record (ending run gs) { completed_groups = g ∷ (ending run gs).completed_groups })
          ((record_success g >> run_groups gs) (at_state plan run running h (some g) done false))
  unfolding record_success transition_to
  success-Ends g gs h done (r, state, completed_, failed_, current, stop_, plan_) = (
    r,
    state,
    completed_ ∙ append_assoc done (g ∷ []) (ending run gs).completed_groups,
    failed_,
    current,
    stop_,
    plan_,
  )

  run_groups-Ends :
      (gs : List Name) (h : List WorkerState) (c : Option Name) (done : List Name)
      → Ends plan done (ending run gs) (run_groups gs (at_state plan run idle h c done false))
  run_groups-Ends [] h c done =
      unfold run_groups ending transition_to in
      (refl, refl, sym (append-nil done), refl, refl, refl, refl)
  run_groups-Ends (g ∷ gs) h c done = elim (ℕ-cases (run g).stops) [
    | inr (m, e) ↦
        rw
          (
            run_groups-cons g gs h c done,
            ending_stopped run g gs m e,
            call_group_stopped g m plan run (before_call h) (some g) done e,
          )
          (unfold finish in (refl, refl, sym (append-nil done), refl, refl, refl, refl))
    | inl e ↦
        rw
          (
            run_groups-cons g gs h c done,
            ending_quiet run g gs e,
            call_group_quiet g plan run (before_call h) (some g) done e,
          )
          (elim (Bool-cases (succeeded (run g).answer)) [
            | inl f ↦ rw f (
                success-Ends g gs (before_call h) done (
                  run_groups-Ends gs ((before_call h ++ running ∷ []) ++ completed ∷ []) (some g)
                    (done ++ g ∷ [])))
            | inr f ↦ rw f (
                unfold record_failure transition_to in
                (refl, refl, sym (append-nil done), refl, refl, refl, refl))
          ])
  ]

abbrev status_of : WorkerPlan → Ending → SupervisorStatus
status_of plan e = record {
  smu_name = plan.smu_name;
  state = final_state e;
  current_group = none;
  completed_groups = e.completed_groups;
  failed_group = e.failed_group;
}

status_of-Ends :
    (plan : WorkerPlan) (e : Ending) (x : Result LifecycleError (Unit {0}) × SequentialSupervisor)
    → Ends plan [] e x
    → (x.0 ≡ ok tt) × (status x.1 ≡ status_of plan e)
unfolding status
status_of-Ends plan e (r, s) (ok_, state, completed_, failed_, current, stop_, plan_) = (ok_, cc)

-- From a new_supervisor supervisor `start` never raises, whatever `run_group` does: the groups run in order
-- until one calls `stop()`, fails or raises, the status lists exactly those that completed and the
-- one that failed, and the worker ends ABORTED after a stop, FAILED after a failure, and else IDLE.
pub start-ending :
    (plan : WorkerPlan) (run : Name → GroupRun)
    → let (r, s) = start (new_supervisor plan run) in
      let e = ending run plan.groups in
      (r ≡ ok tt)
      × (status s ≡ record {
        smu_name = plan.smu_name;
        state = final_state e;
        current_group = none;
        completed_groups = e.completed_groups;
        failed_group = e.failed_group;
      })
unfolding start status new_supervisor
start-ending plan run =
    status_of-Ends plan (ending run plan.groups) (start (new_supervisor plan run))
      (run_groups-Ends plan run plan.groups [] none [])

-- A stop that was requested before `start` aborts the worker, and no group runs.
pub start-stopped :
    (plan : WorkerPlan) (run : Name → GroupRun)
    → let (r, s) = start (stop (new_supervisor plan run)).1 in
      (r ≡ ok tt)
      × (s.lifecycle.state ≡ aborted)
      × (s.completed_groups ≡ [])
      × (s.failed_group ≡ none)
unfolding start stop new_supervisor move transition_to
start-stopped plan run = (refl, refl, refl, refl)
