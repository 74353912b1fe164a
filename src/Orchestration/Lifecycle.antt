-- ===== src/Orchestration/Lifecycle.antt =====
-- orchestration/worker_lifecycle.py: the states of a worker and the legal transitions.
pub mod Trails
use nipxi.Prelude.{ℕ, Bool, List, [], ◌∷◌, ◌++◌, ◌==◌, if◌then◌else◌, any}
use nipxi.Prelude.Exec.{Result, ok, err, Action}

pub data WorkerState : Type 0 where
  idle discovered ready claiming running completed failed aborted : WorkerState

abbrev pub rank : WorkerState → ℕ
rank idle = 0
rank discovered = 1
rank ready = 2
rank claiming = 3
rank running = 4
rank completed = 5
rank failed = 6
rank aborted = 7

abbrev pub same_state : WorkerState → WorkerState → Bool
same_state s t = rank s == rank t

-- TERMINAL_STATES
unfoldable pub terminal_states : List WorkerState
terminal_states = completed ∷ failed ∷ aborted ∷ []

-- ALLOWED_TRANSITIONS
unfoldable pub allowed_transitions : WorkerState → List WorkerState
allowed_transitions idle = discovered ∷ aborted ∷ []
allowed_transitions discovered = ready ∷ aborted ∷ []
allowed_transitions ready = claiming ∷ aborted ∷ []
allowed_transitions claiming = running ∷ failed ∷ aborted ∷ []
allowed_transitions running = completed ∷ failed ∷ aborted ∷ []
allowed_transitions completed = idle ∷ []
allowed_transitions failed = idle ∷ []
allowed_transitions aborted = idle ∷ []

unfoldable pub is_valid_transition : WorkerState → WorkerState → Bool
unfolding allowed_transitions
is_valid_transition current next = any (same_state next) (allowed_transitions current)

-- InvalidWorkerTransitionError
pub data LifecycleError : Type 0 where
  illegal : WorkerState → WorkerState → LifecycleError

unfoldable pub validate_transition : WorkerState → WorkerState → Result LifecycleError (Unit {0})
unfolding is_valid_transition
validate_transition current next =
    if is_valid_transition current next then ok tt else err (illegal current next)

pub record WorkerLifecycle : Type 0 where
  pub state : WorkerState
  pub history : List WorkerState

abbrev pub new_lifecycle : WorkerLifecycle
new_lifecycle = record { state = idle; history = [] }

unfoldable pub transition_to : WorkerState → Action LifecycleError WorkerLifecycle WorkerState
unfolding validate_transition
transition_to next w = elim (validate_transition w.state next) [
  | ok _ ↦ (ok next, record { state = next; history = w.history ++ w.state ∷ [] })
  | err e ↦ (err e, w)
]

unfoldable pub is_terminal : WorkerLifecycle → Bool
unfolding terminal_states
is_terminal w = any (same_state w.state) terminal_states
