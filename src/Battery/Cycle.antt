-- ===== src/Battery/Cycle.antt =====
-- test_control/cycle_sequence.py: repetitions of a charge, a rest and a discharge.
pub mod Repetitions
use nipxi.Prelude.{ℕ, Bool, true, false, Option, none, some, List, [], ◌∷◌, if◌then◌else◌}
use nipxi.Prelude.Exec.{Result, ok, err, pure, ◌>>=◌, ◌>>◌}
use nipxi.Prelude.Int.{ℤ}
use nipxi.Hardware.Smu.{Session}
use nipxi.Hardware.RelayEth.{Transport}
use nipxi.Safety.Monitor.{SafetyMonitor, BatteryCfg}
use nipxi.Safety.Guard.{
  Exception, cancelled, unexpected, StorageCall, Station, Op, run_guarded, complete,
}
use nipxi.Battery.Operation.{
  Course, Setpoints, fail_if, raise_any, run_charge_sequence, run_discharge_sequence,
}

-- Where a repetition writes to the cycle's own storage.
pub data Milestone : Type 0 where
  charge_starting resting discharge_starting repetition_complete : Milestone

-- One charge or discharge with a storage of its own: what opening that storage raises, what the run
-- meets, and what is raised in place of its outcome by closing the storage, or by the
-- reclassification of a station fault.
pub record Phase (S : Type 0) : Type 0 where
  pub opening_raises : Option Exception
  pub course : Course S
  pub storage : StorageCall → Option Exception
  pub final_voltage : Option ℤ
  pub closing_raises : Option Exception

pub record Repetition (S : Type 0) : Type 0 where
  pub cancelled_before : Bool
  pub log_raises : Milestone → Bool
  pub charging : Phase S
  pub cancelled_after_charge : Bool
  pub cancelled_in_rest : Bool
  pub discharging : Phase S

module _ {S T : Type 0} where
  -- `_make_phase_storage`, the `try` around a phase and its `finally`. The rows of the phase go to its
  -- own storage and are left out.
  unfoldable pub run_phase : Phase S → Op S T Bool → Op S T Bool
  run_phase phase body st =
      let (r, st') = body (record st { records = [] }) in
      let left : Station S T = record st' { records = st.records } in
      elim phase.opening_raises [
        | some e ↦ (err e, st)
        | none ↦ elim phase.closing_raises [ some e ↦ (err e, left) | none ↦ (r, left) ]
      ]

module _ {S T : Type 0} (dev : Session S) (net : Transport T) (p : Setpoints) (cfg : BatteryCfg)
    (monitor : SafetyMonitor) (settle_s relay_address : ℕ) (floor_v : ℤ) where
  abbrev pub charge_phase : Phase S → Op S T Bool
  charge_phase phase = run_phase phase (
      run_charge_sequence dev net p cfg monitor settle_s relay_address phase.course phase.storage
        phase.final_voltage)

  abbrev pub discharge_phase : Phase S → Op S T Bool
  discharge_phase phase = run_phase phase (
      run_discharge_sequence dev net p cfg monitor settle_s relay_address phase.course phase.storage
        phase.final_voltage floor_v)

  unfoldable pub run_repetition : Repetition S → Op S T (Unit {0})
  run_repetition rep =
      fail_if rep.cancelled_before cancelled
      >> fail_if (rep.log_raises charge_starting) unexpected
      >> charge_phase rep.charging
      >> fail_if rep.cancelled_after_charge cancelled
      >> fail_if (rep.log_raises resting) unexpected
      >> fail_if rep.cancelled_in_rest cancelled
      >> fail_if (rep.log_raises discharge_starting) unexpected
      >> discharge_phase rep.discharging
      >> fail_if (rep.log_raises repetition_complete) unexpected

  -- `_run_cycle`, with an entry for each repetition.
  unfoldable pub run_cycle : List (Repetition S) → Op S T Bool
  run_cycle [] st = (ok true, st)
  run_cycle (rep ∷ reps) st = (run_repetition rep >> run_cycle reps) st

  -- `CycleSequence.run`
  unfoldable pub run_cycle_sequence :
      (StorageCall → Option Exception) → Option ℤ → List (Repetition S) → Op S T Bool
  run_cycle_sequence storage final_voltage reps =
      run_guarded dev net storage final_voltage (run_cycle reps)
      >> complete dev net storage final_voltage
      >> pure true
