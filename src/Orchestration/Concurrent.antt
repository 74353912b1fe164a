-- ===== src/Orchestration/Concurrent.antt =====
-- orchestration/concurrent_supervisor.py and orchestration/global_emergency_stop.py: the threads of
-- all workers and the supervisor's own, as steps of a shared state.
pub mod Shutdown
pub mod Runs
use nipxi.Prelude.{
  ℕ, Bool, true, false, not, ◌&&◌, Option, none, some, List, [], ◌∷◌, ◌++◌, if◌then◌else◌, any, ◌≡◌,
}
use nipxi.Orchestration.Workers.{Name}
use nipxi.Orchestration.FaultBus.{Reason, GlobalFaultBus, FaultReport, report}
use nipxi.Orchestration.FaultBus

-- A GroupWorker as the supervisor sees it.
pub record GroupWorker : Type 0 where
  pub group_id : Name
  pub is_alive : Bool

pub record ConcurrentRunResult : Type 0 where
  pub faulted : Bool
  pub fault_reason : Option Reason

-- Where the supervisor's thread stands in `run`: about to call `wait_for_fault`, about to test
-- `is_alive` of every worker after a timeout, about to call `GlobalEmergencyStop.trigger`, or done.
pub data Control : Type 0 where
  waiting : Control
  checking : Control
  stopping : Control
  returned : ConcurrentRunResult → Control

pub record System : Type 0 where
  pub workers : List GroupWorker
  pub bus : GlobalFaultBus
  pub control : Control

-- `for worker in self._workers: worker.start()`
abbrev pub all_started : List Name → List GroupWorker
all_started [] = []
all_started (g ∷ gs) = record { group_id = g; is_alive = true } ∷ all_started gs

unfoldable pub begin : List Name → System
begin group_ids = record {
  workers = all_started group_ids;
  bus = FaultBus.new_bus;
  control = waiting;
}

-- `any(w.is_alive() for w in self._workers)`, of which `run` tests the negation.
abbrev pub any_alive : List GroupWorker → Bool
any_alive = any λ w. w.is_alive

-- `origin.reason if origin is not None else None`
abbrev pub reason_of : Option FaultReport → Option Reason
reason_of none = none
reason_of (some f) = some f.reason

abbrev pub normal_result : ConcurrentRunResult
normal_result = record { faulted = false; fault_reason = none }

abbrev pub fault_result : GlobalFaultBus → ConcurrentRunResult
fault_result bus = record { faulted = true; fault_reason = reason_of bus.origin }

-- One step of some thread. The bus and the flags are shared, so a worker may step between any two
-- steps of the supervisor.
pub data Step : System → System → Type 0 where
  -- a live worker calls `report`
  reports :
      (ws vs : List GroupWorker) (bus : GlobalFaultBus) (c : Control) (g : Name) (now : ℕ)
      (reason : Reason)
      → Step
          (record {
            workers = ws ++ record { group_id = g; is_alive = true } ∷ vs;
            bus = bus;
            control = c;
          })
          (record {
            workers = ws ++ record { group_id = g; is_alive = true } ∷ vs;
            bus = report now (some g) reason bus;
            control = c;
          })
  -- a live worker's thread ends
  ends :
      (ws vs : List GroupWorker) (bus : GlobalFaultBus) (c : Control) (g : Name)
      → Step
          (record {
            workers = ws ++ record { group_id = g; is_alive = true } ∷ vs;
            bus = bus;
            control = c;
          })
          (record {
            workers = ws ++ record { group_id = g; is_alive = false } ∷ vs;
            bus = bus;
            control = c;
          })
  -- `wait_for_fault` returns True
  wakes :
      (ws : List GroupWorker) (bus : GlobalFaultBus)
      → bus.tripped ≡ true
      → Step
          (record { workers = ws; bus = bus; control = waiting })
          (record { workers = ws; bus = bus; control = stopping })
  -- `wait_for_fault` returns False
  times_out :
      (ws : List GroupWorker) (bus : GlobalFaultBus)
      → bus.tripped ≡ false
      → Step
          (record { workers = ws; bus = bus; control = waiting })
          (record { workers = ws; bus = bus; control = checking })
  -- some worker is alive: back to the top of the loop
  goes_on :
      (ws : List GroupWorker) (bus : GlobalFaultBus)
      → any_alive ws ≡ true
      → Step
          (record { workers = ws; bus = bus; control = checking })
          (record { workers = ws; bus = bus; control = waiting })
  -- no worker is alive: `return ConcurrentRunResult(faulted=False, ...)`
  completes :
      (ws : List GroupWorker) (bus : GlobalFaultBus)
      → any_alive ws ≡ false
      → Step
          (record { workers = ws; bus = bus; control = checking })
          (record { workers = ws; bus = bus; control = returned normal_result })
  -- `trigger` and the second `return`
  stops :
      (ws : List GroupWorker) (bus : GlobalFaultBus)
      → Step
          (record { workers = ws; bus = bus; control = stopping })
          (record { workers = ws; bus = bus; control = returned (fault_result bus) })

pub data Run (s : System) : System → Type 0 where
  here : Run s s
  next : {t u : System} → Run s t → Step t u → Run s u
