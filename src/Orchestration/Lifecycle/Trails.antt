-- ===== src/Orchestration/Lifecycle/Trails.antt =====
-- What the transition table means for the states that a worker goes through.
use nipxi.Prelude.{
  ◌≡◌, refl, true, not, List, [], ◌∷◌, ◌++◌, if◌then◌else◌, arith, Bool-cases, inl, inr,
}
use nipxi.Prelude.Exec.{ok, err}
use nipxi.Orchestration.Lifecycle.{
  WorkerState, idle, discovered, ready, claiming, running, completed, failed, aborted, same_state,
  is_valid_transition, illegal, WorkerLifecycle, new_lifecycle, transition_to, is_terminal,
}

-- The states, oldest first, with each a legal successor of the one before it.
abbrev pub IsTrail : WorkerState → List WorkerState → WorkerState → Type 0
IsTrail s [] last = is_valid_transition s last ≡ true
IsTrail s (t ∷ ts) last = (is_valid_transition s t ≡ true) × IsTrail t ts last

-- The history and the present state of a worker that started idle.
abbrev pub IsLegal : List WorkerState → WorkerState → Type 0
IsLegal [] state = state ≡ idle
IsLegal (s ∷ ss) state = (s ≡ idle) × IsTrail s ss state

IsTrail-snoc :
    (s : WorkerState) (ss : List WorkerState) (t u : WorkerState)
    → IsTrail s ss t
    → is_valid_transition t u ≡ true
    → IsTrail s (ss ++ t ∷ []) u
IsTrail-snoc s [] t u h v = (h, v)
IsTrail-snoc s (x ∷ ss) t u h v = (h.0, IsTrail-snoc x ss t u h.1 v)

IsLegal-snoc :
    (ss : List WorkerState) (t u : WorkerState)
    → IsLegal ss t
    → is_valid_transition t u ≡ true
    → IsLegal (ss ++ t ∷ []) u
IsLegal-snoc [] t u h v = (h, v)
IsLegal-snoc (s ∷ ss) t u h v = (h.0, IsTrail-snoc s ss t u h.1 v)

-- A transition that is not in the table raises and leaves the worker as it was; one that is in the
-- table moves the state and appends the old one to the history.
pub transition_to_lem :
    (next : WorkerState) (w : WorkerLifecycle)
    → transition_to next w ≡ (
        if is_valid_transition w.state next
        then (ok next, record { state = next; history = w.history ++ w.state ∷ [] })
        else (err (illegal w.state next), w))
unfolding transition_to
transition_to_lem next w = ground arith

-- The loop of a caller that asks for transitions one after the other and catches what is refused.
unfoldable pub request_all : List WorkerState → WorkerLifecycle → WorkerLifecycle
request_all [] w = w
request_all (s ∷ ss) w = request_all ss (transition_to s w).1

transition_to-IsLegal :
    (next : WorkerState) (w : WorkerLifecycle)
    → IsLegal w.history w.state
    → IsLegal (transition_to next w).1.history (transition_to next w).1.state
transition_to-IsLegal next w h = elim (Bool-cases (is_valid_transition w.state next)) [
  | inl e ↦ rw (transition_to_lem, e) (IsLegal-snoc w.history w.state next h e)
  | inr e ↦ rw (transition_to_lem, e) h
]

request_all-IsLegal_from :
    (requests : List WorkerState) (w : WorkerLifecycle)
    → IsLegal w.history w.state
    → IsLegal (request_all requests w).history (request_all requests w).state
unfolding request_all
request_all-IsLegal_from [] w h = h
request_all-IsLegal_from (s ∷ ss) w h =
    request_all-IsLegal_from ss (transition_to s w).1 (transition_to-IsLegal s w h)

-- Whatever transitions are asked of a new worker, legal or not, its history and state form a path
-- of the table that begins at IDLE.
pub request_all-IsLegal :
    (requests : List WorkerState)
    → IsLegal
        (request_all requests new_lifecycle).history
        (request_all requests new_lifecycle).state
request_all-IsLegal requests = request_all-IsLegal_from requests new_lifecycle refl

-- A worker can be aborted exactly from the states that are not terminal, and from a terminal state
-- the only legal transition is the one back to IDLE.
pub terminal_transitions :
    (w : WorkerLifecycle) (next : WorkerState)
    → (is_valid_transition w.state aborted ≡ not (is_terminal w))
      × (is_terminal w ≡ true → is_valid_transition w.state next ≡ same_state next idle)
unfolding is_valid_transition is_terminal
terminal_transitions w next = (ground arith, λ h. ground arith)

-- A state, legally reachable from another in any number of transitions.
infix 40 ◌⟶*◌
pub data ◌⟶*◌ : WorkerState → WorkerState → Type 0 where
  here : {s : WorkerState} → s ⟶* s
  step : {s t u : WorkerState} → is_valid_transition s t ≡ true → t ⟶* u → s ⟶* u

to_idle : (s : WorkerState) → s ⟶* idle
unfolding is_valid_transition
to_idle idle = here
to_idle discovered = step {t = aborted} refl (step {t = idle} refl here)
to_idle ready = step {t = aborted} refl (step {t = idle} refl here)
to_idle claiming = step {t = aborted} refl (step {t = idle} refl here)
to_idle running = step {t = aborted} refl (step {t = idle} refl here)
to_idle _ = step {t = idle} refl here

join : {s t u : WorkerState} → s ⟶* t → t ⟶* u → s ⟶* u
join here k = k
join (step v h) k = step v (join h k)

idle-running : idle ⟶* running
unfolding is_valid_transition
idle-running =
    step {t = discovered} refl
      (step {t = ready} refl (step {t = claiming} refl (step {t = running} refl here)))

from_idle : (s : WorkerState) → idle ⟶* s
unfolding is_valid_transition
from_idle idle = here
from_idle discovered = step {t = discovered} refl here
from_idle ready = step {t = discovered} refl (step {t = ready} refl here)
from_idle claiming =
    step {t = discovered} refl (step {t = ready} refl (step {t = claiming} refl here))
from_idle aborted = step {t = aborted} refl here
from_idle running = idle-running
from_idle completed = join idle-running (step {t = completed} refl here)
from_idle failed = join idle-running (step {t = failed} refl here)

-- No state is a dead end: from each, every other can be reached.
pub every_state_reachable : (s t : WorkerState) → s ⟶* t
every_state_reachable s t = join (to_idle s) (from_idle t)
