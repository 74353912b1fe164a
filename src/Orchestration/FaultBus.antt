-- ===== src/Orchestration/FaultBus.antt =====
-- orchestration/fault_bus.py: the reports of all workers, of which the first is the trigger. Each
-- call of `report` holds the lock, so concurrent reports are a sequence of calls.
use nipxi.Prelude.{
  ℕ, ◌≡◌, refl, ap, Bool, true, false, Option, none, some, List, [], ◌∷◌, ◌++◌, append_assoc,
  append-nil,
}
use nipxi.Orchestration.Workers.{Name}

-- The text of a report, by the place in the code that writes it.
pub data Reason : Type 0 where
  connect_failed unexpected_connect_error uncaught_exception disconnect_failed : Reason
  run_group_failed : Name → Reason
  other : Name → Reason

pub record FaultReport : Type 0 where
  pub group_id : Option Name
  pub reason : Reason
  pub reported_at : ℕ

pub record GlobalFaultBus : Type 0 where
  pub tripped : Bool
  pub origin : Option FaultReport
  pub all_reports : List FaultReport

unfoldable pub new_bus : GlobalFaultBus
new_bus = record { tripped = false; origin = none; all_reports = [] }

-- `report` at the time `now` of the monotonic clock.
unfoldable pub report : ℕ → Option Name → Reason → GlobalFaultBus → GlobalFaultBus
report now group_id reason bus =
    let fault : FaultReport = record { group_id = group_id; reason = reason; reported_at = now } in
    record {
      tripped = true;
      origin = elim bus.origin [ none ↦ some fault | some first ↦ some first ];
      all_reports = bus.all_reports ++ fault ∷ [];
    }

-- Calls of `report`, in the order in which they get the lock.
unfoldable pub report_all : List FaultReport → GlobalFaultBus → GlobalFaultBus
report_all [] bus = bus
report_all (f ∷ fs) bus = report_all fs (report f.reported_at f.group_id f.reason bus)

abbrev pub head? : List FaultReport → Option FaultReport
head? [] = none
head? (f ∷ fs) = some f

abbrev pub is_tripped : List FaultReport → Bool
is_tripped [] = false
is_tripped (f ∷ fs) = true

-- What a bus shows after these reports.
abbrev pub shows : List FaultReport → GlobalFaultBus
shows fs = record { tripped = is_tripped fs; origin = head? fs; all_reports = fs }

report-shows :
    (f : FaultReport) (fs : List FaultReport)
    → report f.reported_at f.group_id f.reason (shows fs) ≡ shows (fs ++ f ∷ [])
unfolding report
report-shows f [] = refl
report-shows f (g ∷ fs) = refl

report_all-shows : (fs gs : List FaultReport) → report_all fs (shows gs) ≡ shows (gs ++ fs)
unfolding report_all
report_all-shows [] gs = ap shows (append_nil gs)
  where
    append_nil : (l : List FaultReport) → l ≡ l ++ []
    append_nil l = rw append-nil
report_all-shows (f ∷ fs) gs =
    rw (report-shows f gs, report_all-shows fs (gs ++ f ∷ []), append_assoc)

-- A new bus that gets any reports, in any order, is tripped if there is one, keeps all of them in
-- that order, and names the first as the origin, however many follow.
pub report_all_lem : (fs : List FaultReport) → report_all fs new_bus ≡ shows fs
unfolding new_bus
report_all_lem fs = report_all-shows fs []
