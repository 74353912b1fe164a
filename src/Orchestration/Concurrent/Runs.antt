-- ===== src/Orchestration/Concurrent/Runs.antt =====
-- What holds of every run of the threads, and a run that the loop of the supervisor misses.
use nipxi.Prelude.{
  ℕ, ◌≡◌, refl, sym, subst, true, false, Option, some, List, [], ◌∷◌, ◌++◌, append_assoc, arith,
  ◌⊎◌, inl, inr,
}
use nipxi.Orchestration.Workers.{Name}
use nipxi.Orchestration.FaultBus.{Reason, GlobalFaultBus, FaultReport, report}
use nipxi.Orchestration.FaultBus
use nipxi.Orchestration.Concurrent.{
  GroupWorker, ConcurrentRunResult, Control, waiting, checking, stopping, returned, System,
  all_started, begin, any_alive, normal_result, Step, reports, ends, wakes, times_out, goes_on,
  completes, stops, Run, here, next,
}

-- A fault result comes with a tripped bus, and a normal result with no worker alive.
abbrev pub Justified : ConcurrentRunResult → System → Type 0
Justified r s =
    ((r.faulted ≡ true) × (s.bus.tripped ≡ true))
    ⊎ ((r.faulted ≡ false) × (any_alive s.workers ≡ false))

abbrev IsSoundAt : System → Control → Type 0
IsSoundAt s waiting = Unit
IsSoundAt s checking = Unit
IsSoundAt s stopping = s.bus.tripped ≡ true
IsSoundAt s (returned r) = Justified r s

abbrev IsSound : System → Type 0
IsSound s = IsSoundAt s s.control

tripped-report :
    (now : ℕ) (g : Option Name) (reason : Reason) (bus : GlobalFaultBus)
    → (report now g reason bus).tripped ≡ true
unfolding report
tripped-report now g reason bus = refl

live_in :
    (ws vs : List GroupWorker) (g : Name)
    → any_alive (ws ++ record { group_id = g; is_alive = true } ∷ vs) ≡ true
live_in [] vs g = refl
live_in (w ∷ ws) vs g = ground (arith, live_in ws vs g)

Step-IsSound : {s t : System} → Step s t → IsSound s → IsSound t
Step-IsSound (reports ws vs bus waiting g now reason) h = tt
Step-IsSound (reports ws vs bus checking g now reason) h = tt
Step-IsSound (reports ws vs bus stopping g now reason) h = tripped-report now (some g) reason bus
Step-IsSound (reports ws vs bus (returned r) g now reason) (inl h) =
    inl (h.0, tripped-report now (some g) reason bus)
Step-IsSound (reports ws vs bus (returned r) g now reason) (inr h) = inr h
Step-IsSound (ends ws vs bus waiting g) h = tt
Step-IsSound (ends ws vs bus checking g) h = tt
Step-IsSound (ends ws vs bus stopping g) h = h
Step-IsSound (ends ws vs bus (returned r) g) (inl h) = inl h
Step-IsSound (ends ws vs bus (returned r) g) (inr h) = ground (arith, live_in ws vs g)
Step-IsSound (wakes ws bus e) h = e
Step-IsSound (times_out ws bus e) h = tt
Step-IsSound (goes_on ws bus e) h = tt
Step-IsSound (completes ws bus e) h = inr (refl, e)
Step-IsSound (stops ws bus) h = inl (refl, h)

Run-IsSound : {s t : System} → IsSound s → Run s t → IsSound t
Run-IsSound h here = h
Run-IsSound h (next r st) = Step-IsSound st (Run-IsSound h r)

-- In every interleaving of the threads of any groups, `run` returns a fault only when the bus has
-- tripped, and a normal result only when no worker is alive.
pub returned-Justified :
    (group_ids : List Name) (s : System) (r : ConcurrentRunResult)
    → Run (begin group_ids) s
    → s.control ≡ returned r
    → Justified r s
unfolding begin
returned-Justified group_ids s r run e = subst (λ c. IsSoundAt s c) e (Run-IsSound tt run)

-- The supervisor's thread is on its way to a fault result.
abbrev IsCommittedAt : System → Control → Type 0
IsCommittedAt s waiting = s.bus.tripped ≡ true
IsCommittedAt s checking = ⊥
IsCommittedAt s stopping = Unit
IsCommittedAt s (returned r) = r.faulted ≡ true

abbrev IsCommitted : System → Type 0
IsCommitted s = IsCommittedAt s s.control

Step-IsCommitted : {s t : System} → Step s t → IsCommitted s → IsCommitted t
Step-IsCommitted (reports ws vs bus waiting g now reason) h = tripped-report now (some g) reason bus
Step-IsCommitted (reports ws vs bus checking g now reason) h = h
Step-IsCommitted (reports ws vs bus stopping g now reason) h = h
Step-IsCommitted (reports ws vs bus (returned r) g now reason) h = h
Step-IsCommitted (ends ws vs bus waiting g) h = h
Step-IsCommitted (ends ws vs bus checking g) h = h
Step-IsCommitted (ends ws vs bus stopping g) h = h
Step-IsCommitted (ends ws vs bus (returned r) g) h = h
Step-IsCommitted (wakes ws bus e) h = tt
Step-IsCommitted (times_out ws bus e) h = cc
Step-IsCommitted (goes_on ws bus e) h = absurd h
Step-IsCommitted (completes ws bus e) h = absurd h
Step-IsCommitted (stops ws bus) h = refl

Run-IsCommitted : {s t : System} → IsCommitted s → Run s t → IsCommitted t
Run-IsCommitted h here = h
Run-IsCommitted h (next r st) = Step-IsCommitted st (Run-IsCommitted h r)

-- Once the bus has tripped while the supervisor is at the top of its loop, whatever the threads do
-- from there, `run` can only return a fault.
pub tripped_wait_faults :
    (s t : System) (r : ConcurrentRunResult)
    → s.control ≡ waiting
    → s.bus.tripped ≡ true
    → Run s t
    → t.control ≡ returned r
    → r.faulted ≡ true
tripped_wait_faults s t r w h run e =
    subst (λ c. IsCommittedAt t c) e
      (Run-IsCommitted (subst (λ c. IsCommittedAt s c) (sym w) h) run)

abbrev dead : List Name → List GroupWorker
dead [] = []
dead (g ∷ gs) = record { group_id = g; is_alive = false } ∷ dead gs

any_alive-dead : (gs : List Name) → any_alive (dead gs) ≡ false
any_alive-dead [] = refl
any_alive-dead (g ∷ gs) = any_alive-dead gs

-- All threads end, one after the other.
end_all :
    (s : System) (ws : List GroupWorker) (gs : List Name) (bus : GlobalFaultBus) (c : Control)
    → Run s (record { workers = ws ++ all_started gs; bus = bus; control = c })
    → Run s (record { workers = ws ++ dead gs; bus = bus; control = c })
end_all s ws [] bus c run = run
end_all s ws (g ∷ gs) bus c run =
    let moved = ends ws (all_started gs) bus c g in
    let w : GroupWorker = record { group_id = g; is_alive = false } in
    rw append_assoc at (end_all s (ws ++ w ∷ []) gs bus c (rw append_assoc (next run moved)))

not_tripped : FaultBus.new_bus.tripped ≡ false
unfolding FaultBus.new_bus
not_tripped = refl

-- For any groups, at least one, and any fault that the first of them reports: in some interleaving
-- the report and the end of all threads fall between the return of `wait_for_fault` and the test of
-- `is_alive`, and `run` returns `faulted=False` though the bus has tripped.
pub missed_fault :
    (g : Name) (gs : List Name) (now : ℕ) (reason : Reason)
    → (s : System) × Run (begin (g ∷ gs)) s
      × (s.control ≡ returned normal_result)
      × (s.bus.tripped ≡ true)
unfolding begin
missed_fault g gs now reason =
    let bus = report now (some g) reason FaultBus.new_bus in
    let ended = end_all (begin (g ∷ gs)) [] (g ∷ gs) bus checking (
      next (next here (times_out (all_started (g ∷ gs)) FaultBus.new_bus not_tripped))
        (reports [] (all_started gs) FaultBus.new_bus checking g now reason)) in
    (
      record { workers = dead (g ∷ gs); bus = bus; control = returned normal_result },
      next ended (completes (dead (g ∷ gs)) bus (any_alive-dead (g ∷ gs))),
      refl,
      tripped-report now (some g) reason FaultBus.new_bus,
    )
