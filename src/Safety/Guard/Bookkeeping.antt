-- ===== src/Safety/Guard/Bookkeeping.antt =====
-- test_control/battery_operation_sequence.py: what an operation that ends with an exception leaves.
use nipxi.Prelude.{
  ℕ, inl, inr, ◌⊎◌, ◌≡◌, ◌≢◌, ◌↔◌, ◌∙◌, ap, sym, subst, refl, Bool, true, false, Option, none, some,
  List, [], ◌∷◌, ◌++◌, arith, any, if◌then◌else◌,
}
use nipxi.Prelude.Exec.{Result, ok, err}
use nipxi.Prelude.Int.{ℤ}
use nipxi.Hardware.Smu.{Session}
use nipxi.Hardware.RelayEth.{Transport}
use nipxi.Hardware.Smu.Shutdown.{IsOff}
use nipxi.Hardware.Smu.Shutdown
use nipxi.Hardware.RelayEth.Safety
use nipxi.Safety.EmergencyStop.{
  KeepsOutput, emergency_stop, safe_cancel_shutdown, emergency_stop-IsSafe,
}
use nipxi.Safety.Guard.{
  Exception, cancelled, safety_violation, relay_fault, timed_out, unexpected, no_exception_class,
  StopReason, failed_reason, safety_reason, timeout_reason, cancelled_reason, RunResult, fail,
  timeout, stopped_by_operator, StorageCall, log_event, record_execution_state, extra_fields,
  finish_run_summary, cancel_message, fault_message, monitor_triggered, Station, Drivers, Op, store,
  handle, run_guarded, complete, call_emergency_stop, call_safe_cancel_shutdown,
}

-- The stop reason and the result that belong to a class.
abbrev stop_reason : Exception → StopReason
stop_reason cancelled = cancelled_reason
stop_reason safety_violation = safety_reason
stop_reason relay_fault = failed_reason
stop_reason timed_out = timeout_reason
stop_reason unexpected = failed_reason
stop_reason no_exception_class = failed_reason

abbrev run_result : Exception → RunResult
run_result cancelled = stopped_by_operator
run_result safety_violation = fail
run_result relay_fault = fail
run_result timed_out = timeout
run_result unexpected = fail
run_result no_exception_class = fail

-- The rows that the handler of an exception writes, in their order.
abbrev pub bookkeeping : Exception → Option ℤ → List StorageCall
bookkeeping e v =
    log_rows e
    ++ record_execution_state (stop_reason e)
      ∷ extra_fields
      ∷ finish_run_summary (stop_reason e) (run_result e) v
      ∷ []
  where
    log_rows : Exception → List StorageCall
    log_rows cancelled = log_event cancel_message ∷ []
    log_rows safety_violation = log_event fault_message ∷ log_event monitor_triggered ∷ []
    log_rows no_exception_class = []
    log_rows _ = log_event fault_message ∷ []

-- Calls made in turn after the rows that are there: what the first that raises raises, and the rows.
abbrev pub write_rows :
    (StorageCall → Option Exception)
    → List StorageCall
    → List StorageCall
    → Option Exception × List StorageCall
write_rows storage rows [] = (none, rows)
write_rows storage rows (c ∷ cs) =
    let rest = write_rows storage (rows ++ c ∷ []) cs in
    elim (storage c) [ some raised ↦ (some raised, rows) | none ↦ rest ]

-- What `emergency_stop` makes of the two drivers, whichever class it is that ends the operation.
abbrev stopped_drivers :
    {S T : Type 0} (dev : Session S) (net : Transport T) → Drivers S T → Drivers S T
stopped_drivers dev net d =
    let stopped = emergency_stop dev net d.smu d.relay in
    record { smu = stopped.smu; relay = stopped.relay_matrix }

-- What is left when an operation raised `e` and left the station `st`.
abbrev pub aftermath :
    {S T A : Type 0} (dev : Session S) (net : Transport T)
    (storage : StorageCall → Option Exception) (v : Option ℤ)
    → Exception
    → Station S T
    → Result Exception A × Station S T
aftermath dev net storage v e st =
    let (failure, written) = write_rows storage st.records (bookkeeping e v) in
    elim failure [
      | some raised ↦ (err raised, record st { records = written })
      | none ↦
          (err e, record st { drivers = stopped_drivers dev net st.drivers; records = written })
    ]

abbrev pub is_handled : Exception → Bool
is_handled no_exception_class = false
is_handled _ = true

handle_lem :
    {S T A : Type 0} (dev : Session S) (net : Transport T)
    (storage : StorageCall → Option Exception) (v : Option ℤ) (e : Exception) (d : Drivers S T)
    (rows : List StorageCall) (n : ℕ)
    → is_handled e ≡ true
    → handle dev net storage v {A = A} e record { drivers = d; records = rows; readings = n }
      ≡ aftermath dev net storage v e record { drivers = d; records = rows; readings = n }
unfolding handle store call_emergency_stop call_safe_cancel_shutdown emergency_stop
    safe_cancel_shutdown
handle_lem dev net storage v cancelled d rows n p = ground arith
handle_lem dev net storage v safety_violation d rows n p = ground arith
handle_lem dev net storage v relay_fault d rows n p = ground arith
handle_lem dev net storage v timed_out d rows n p = ground arith
handle_lem dev net storage v unexpected d rows n p = ground arith
handle_lem dev net storage v no_exception_class d rows n p = ground arith

-- `run_guarded` returns what its operation returns and does nothing else; for an exception that it
-- handles it makes the calls of that class in order, the first of which that raises replaces the
-- exception, and runs the shutdown of that class and raises the exception again only when none does.
pub run_guarded_lem :
    {S T A : Type 0} (dev : Session S) (net : Transport T)
    (storage : StorageCall → Option Exception) (v : Option ℤ) (fn : Op S T A) (st : Station S T)
    → ((a : A) → (fn st).0 ≡ ok a → run_guarded dev net storage v fn st ≡ (ok a, (fn st).1))
      × ((e : Exception)
          → (fn st).0 ≡ err e
          → is_handled e ≡ true
          → run_guarded dev net storage v fn st ≡ aftermath dev net storage v e (fn st).1)
unfolding run_guarded
run_guarded_lem {S} {T} {A} dev net storage v fn st = (λ a h. rw (h, run_guarded) refl, by_class)
  where
    by_class :
        (e : Exception)
        → (fn st).0 ≡ err e
        → is_handled e ≡ true
        → run_guarded dev net storage v fn st ≡ aftermath dev net storage v e (fn st).1
    by_class cancelled h p = rw (h, run_guarded) (handle_lem dev net storage v cancelled _ _ _ refl)
    by_class safety_violation h p =
        rw (h, run_guarded) (handle_lem dev net storage v safety_violation _ _ _ refl)
    by_class relay_fault h p =
        rw (h, run_guarded) (handle_lem dev net storage v relay_fault _ _ _ refl)
    by_class timed_out h p = rw (h, run_guarded) (handle_lem dev net storage v timed_out _ _ _ refl)
    by_class unexpected h p =
        rw (h, run_guarded) (handle_lem dev net storage v unexpected _ _ _ refl)
    by_class no_exception_class h p = ground arith

abbrev pub raises_one : (StorageCall → Option Exception) → List StorageCall → Bool
raises_one storage cs = any (λ c. elim (storage c) [ some _ ↦ true | none ↦ false ]) cs

write_rows-raises :
    (storage : StorageCall → Option Exception) (rows cs : List StorageCall)
    → ((write_rows storage rows cs).0 ≡ none) ↔ (raises_one storage cs ≡ false)
write_rows-raises storage rows [] = ground arith
write_rows-raises storage rows (c ∷ cs) =
    ground (arith, write_rows-raises storage (rows ++ c ∷ []) cs)

or_logged : {A : Type 0} (critical : Bool) → (critical ≡ false → A) → (critical ≡ true) ⊎ A
or_logged true f = inl refl
or_logged false f = inr (f refl)

drivers_left :
    {S T A : Type 0} (dev : Session S) (net : Transport T)
    (storage : StorageCall → Option Exception) (v : Option ℤ) (fn : Op S T A) (st : Station S T)
    (e : Exception)
    → (fn st).0 ≡ err e
    → is_handled e ≡ true
    → (run_guarded dev net storage v fn st).1.drivers ≡ (
        if raises_one storage (bookkeeping e v)
        then (fn st).1.drivers
        else stopped_drivers dev net (fn st).1.drivers)
drivers_left dev net storage v fn st e h p =
    ap (λ x. x.1.drivers) ((run_guarded_lem dev net storage v fn st).1 e h p)
    ∙ ground (arith, write_rows-raises storage (fn st).1.records (bookkeeping e v))

-- What is left of the drivers, by whether a call of the bookkeeping raised.
abbrev pub IsShutDown :
    {S T : Type 0} (dev : Session S) (net : Transport T) (output_on : S → Bool) (energized : T → ℕ)
    → Bool
    → Drivers S T
    → Drivers S T
    → Type 0
IsShutDown dev net output_on energized true d d' = d' ≡ d
IsShutDown dev net output_on energized false d d' =
    let stopped = emergency_stop dev net d.smu d.relay in
    (d'.smu ≡ stopped.smu)
    × (d'.relay ≡ stopped.relay_matrix)
    × ((stopped.output_critical ≡ true) ⊎ IsOff output_on d'.smu.session)
    × ((stopped.relay_critical ≡ true) ⊎ (energized d'.relay.module_state ≡ 0))

-- When the readbacks are truthful and the setpoint registers leave the output as it is: after an
-- exception that `run_guarded` handles, of whichever class, the drivers are as the operation left
-- them when a call of its bookkeeping raises; when none does, they are as `emergency_stop` leaves
-- them, and the output is off unless it logs CRITICAL for the output, and all relays are off unless
-- it logs CRITICAL for the relays.
pub run_guarded-IsShutDown :
    {S T A : Type 0} (dev : Session S) (net : Transport T) (output_on : S → Bool)
    (energized : T → ℕ)
    → KeepsOutput dev net output_on
    → Shutdown.IsTruthful dev output_on
    → Safety.IsTruthful net energized
    → (storage : StorageCall → Option Exception) (v : Option ℤ) (fn : Op S T A) (st : Station S T)
      (e : Exception)
    → (fn st).0 ≡ err e
    → is_handled e ≡ true
    → IsShutDown dev net output_on energized
        (raises_one storage (bookkeeping e v))
        (fn st).1.drivers
        (run_guarded dev net storage v fn st).1.drivers
run_guarded-IsShutDown {S} {T} dev net output_on energized keeps smus nets storage v fn st e h p =
    subst
      (IsShutDown dev net output_on energized (raises_one storage (bookkeeping e v))
        (fn st).1.drivers)
      (sym (drivers_left dev net storage v fn st e h p))
      (by_bookkeeping (fn st).1.drivers (raises_one storage (bookkeeping e v)))
  where
    by_bookkeeping :
        (d : Drivers S T) (b : Bool)
        → IsShutDown dev net output_on energized b d (if b then d else stopped_drivers dev net d)
    by_bookkeeping d true = refl
    by_bookkeeping d false =
        let stopped = emergency_stop dev net d.smu d.relay in
        let is_safe =
          emergency_stop-IsSafe dev net output_on keeps energized smus nets d.smu d.relay in
        (
          refl,
          refl,
          or_logged stopped.output_critical is_safe.0,
          or_logged stopped.relay_critical is_safe.1,
        )

handle-ne-ok :
    {S T A : Type 0} (dev : Session S) (net : Transport T)
    (storage : StorageCall → Option Exception) (v : Option ℤ) (e : Exception) (st : Station S T)
    (a : A)
    → (handle dev net storage v {A = A} e st).0 ≢ ok a
unfolding handle
handle-ne-ok dev net storage v e st a h = ground arith

-- A guarded operation that returns is the operation that returned.
pub run_guarded-ok :
    {S T A : Type 0} (dev : Session S) (net : Transport T)
    (storage : StorageCall → Option Exception) (v : Option ℤ) (fn : Op S T A) (st : Station S T)
    (a : A)
    → (run_guarded dev net storage v fn st).0 ≡ ok a
    → ((fn st).0 ≡ ok a) × ((run_guarded dev net storage v fn st).1 ≡ (fn st).1)
unfolding run_guarded
run_guarded-ok dev net storage v fn st a h = ground (
  arith,
  handle-ne-ok dev net storage v cancelled (fn st).1 a,
  handle-ne-ok dev net storage v safety_violation (fn st).1 a,
  handle-ne-ok dev net storage v relay_fault (fn st).1 a,
  handle-ne-ok dev net storage v timed_out (fn st).1 a,
  handle-ne-ok dev net storage v unexpected (fn st).1 a,
  handle-ne-ok dev net storage v no_exception_class (fn st).1 a,
)

pub complete-drivers :
    {S T : Type 0} (dev : Session S) (net : Transport T) (storage : StorageCall → Option Exception)
    (v : Option ℤ) (st : Station S T)
    → (complete dev net storage v st).1.drivers ≡ st.drivers
unfolding complete store
complete-drivers dev net storage v st = ground arith

pub complete-readings :
    {S T : Type 0} (dev : Session S) (net : Transport T) (storage : StorageCall → Option Exception)
    (v : Option ℤ) (st : Station S T)
    → (complete dev net storage v st).1.readings ≡ st.readings
unfolding complete store
complete-readings dev net storage v st = ground arith
