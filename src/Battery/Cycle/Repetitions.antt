-- ===== src/Battery/Cycle/Repetitions.antt =====
-- test_control/cycle_sequence.py: what a cycle that returns has done.
use nipxi.Prelude.{ℕ, ◌≡◌, Bool, true, false, Option, some, List, [], ◌∷◌, arith, All}
use nipxi.Prelude.Exec.{ok}
use nipxi.Prelude.Int.{ℤ}
use nipxi.Hardware.Smu.{Session}
use nipxi.Hardware.Smu.Shutdown.{IsOff}
use nipxi.Hardware.Smu.Shutdown
use nipxi.Hardware.RelayEth.{Transport}
use nipxi.Hardware.RelayEth.Safety
use nipxi.Safety.EmergencyStop.{KeepsOutput}
use nipxi.Safety.Monitor.{SafetyMonitor, BatteryCfg, Mode, charge, discharge, set_battery_limits}
use nipxi.Safety.Guard.{Exception, StorageCall, Station, Op, run_guarded}
use nipxi.Safety.Guard.Bookkeeping.{complete-drivers, run_guarded-ok}
use nipxi.Battery.Sampling.{Judge, Ending, end_reached, judge_charge, judge_discharge, cutoff_of}
use nipxi.Battery.Operation.{
  Course, Setpoints, run_charge_sequence, run_discharge_sequence, run_position, loop_ending,
}
use nipxi.Battery.Operation.Outcome.{run_position-IsOff}
use nipxi.Battery.Cycle.{
  Phase, Repetition, run_phase, charge_phase, discharge_phase, run_repetition, run_cycle,
  run_cycle_sequence,
}

run_phase-ok :
    {S T : Type 0} (phase : Phase S) (body : Op S T Bool) (st : Station S T) (b : Bool)
    → (run_phase phase body st).0 ≡ ok b
    → let alone : Station S T = record st { records = [] } in
      ((body alone).0 ≡ ok b) × ((run_phase phase body st).1.drivers ≡ (body alone).1.drivers)
unfolding run_phase
run_phase-ok phase body st b h = ground arith

module _ {S T : Type 0} (dev : Session S) (net : Transport T) (p : Setpoints) (cfg : BatteryCfg)
    (monitor : SafetyMonitor) (settle_s relay_address : ℕ) (floor_v : ℤ) where
  -- How the loops of the two phases end.
  abbrev pub charge_ending : Course S → Ending
  charge_ending course =
      loop_ending dev net (judge_charge p.charge_current_a p.charge_voltage_v p.charge_cutoff_a)
        p.charge_timeout_s charge (set_battery_limits (some cfg) monitor) settle_s relay_address
        course

  abbrev pub discharge_ending : Course S → Ending
  discharge_ending course =
      loop_ending dev net (judge_discharge (cutoff_of p.discharge_cutoff_v floor_v))
        p.discharge_timeout_s discharge (set_battery_limits (some cfg) monitor) settle_s
        relay_address course

  abbrev pub IsFinished : Repetition S → Type 0
  IsFinished rep =
      (charge_ending rep.charging.course ≡ end_reached)
      × (discharge_ending rep.discharging.course ≡ end_reached)

  module _ (output_on : S → Bool) (energized : T → ℕ)
      (smu_truthful : Shutdown.IsTruthful dev output_on)
      (net_truthful : Safety.IsTruthful net energized) (keeps : KeepsOutput dev net output_on) where
    abbrev pub IsIdle : Station S T → Type 0
    IsIdle st =
        IsOff output_on st.drivers.smu.session × (energized st.drivers.relay.module_state ≡ 0)

    run_phase-IsIdle :
        (judge : Judge) (timeout_s : ℤ) (mode : Mode) (m : SafetyMonitor) (phase : Phase S)
        (st : Station S T) (b : Bool)
        → let body =
            run_position dev net judge timeout_s mode m settle_s relay_address phase.course
              phase.storage phase.final_voltage in
          (run_phase phase body st).0 ≡ ok b
          → IsIdle (run_phase phase body st).1
            × (loop_ending dev net judge timeout_s mode m settle_s relay_address phase.course
                ≡ end_reached)
    run_phase-IsIdle judge timeout_s mode m phase st b h =
        let body =
          run_position dev net judge timeout_s mode m settle_s relay_address phase.course
            phase.storage phase.final_voltage in
        let alone : Station S T = record st { records = [] } in
        let returned = run_phase-ok phase body st b h in
        let idle =
          run_position-IsOff dev net judge timeout_s mode m settle_s relay_address phase.course
            output_on energized smu_truthful net_truthful keeps phase.storage phase.final_voltage
            alone b returned.0 in
        ((rw returned.1 idle.0, rw returned.1 idle.1), idle.2)

    charge_phase-IsIdle :
        (phase : Phase S) (st : Station S T) (b : Bool)
        → (charge_phase dev net p cfg monitor settle_s relay_address floor_v phase st).0 ≡ ok b
        → IsIdle (charge_phase dev net p cfg monitor settle_s relay_address floor_v phase st).1
          × (charge_ending phase.course ≡ end_reached)
    unfolding run_charge_sequence
    charge_phase-IsIdle phase st b h =
        run_phase-IsIdle (judge_charge p.charge_current_a p.charge_voltage_v p.charge_cutoff_a)
          p.charge_timeout_s charge (set_battery_limits (some cfg) monitor) phase st b h

    discharge_phase-IsIdle :
        (phase : Phase S) (st : Station S T) (b : Bool)
        → (discharge_phase dev net p cfg monitor settle_s relay_address floor_v phase st).0 ≡ ok b
        → IsIdle (discharge_phase dev net p cfg monitor settle_s relay_address floor_v phase st).1
          × (discharge_ending phase.course ≡ end_reached)
    unfolding run_discharge_sequence
    discharge_phase-IsIdle phase st b h =
        run_phase-IsIdle (judge_discharge (cutoff_of p.discharge_cutoff_v floor_v))
          p.discharge_timeout_s discharge (set_battery_limits (some cfg) monitor) phase st b h

    abbrev Repeat : Repetition S → Op S T (Unit {0})
    Repeat = run_repetition dev net p cfg monitor settle_s relay_address floor_v

    run_repetition-IsIdle :
        (rep : Repetition S) (st : Station S T)
        → (Repeat rep st).0 ≡ ok tt
        → IsIdle (Repeat rep st).1 × IsFinished rep
    unfolding run_repetition
    run_repetition-IsIdle rep st h =
        let charged =
          charge_phase dev net p cfg monitor settle_s relay_address floor_v rep.charging st in
        ground (
          arith,
          charge_phase-IsIdle rep.charging st true,
          charge_phase-IsIdle rep.charging st false,
          discharge_phase-IsIdle rep.discharging charged.1 true,
          discharge_phase-IsIdle rep.discharging charged.1 false,
        )

    abbrev Cycling : List (Repetition S) → Op S T Bool
    Cycling = run_cycle dev net p cfg monitor settle_s relay_address floor_v

    run_cycle-IsIdle :
        (reps : List (Repetition S)) (st : Station S T) (b : Bool)
        → IsIdle st
        → (Cycling reps st).0 ≡ ok b
        → IsIdle (Cycling reps st).1 × All IsFinished reps
    unfolding run_cycle
    run_cycle-IsIdle [] st b idle h = (idle, tt)
    run_cycle-IsIdle (rep ∷ reps) st b idle h =
        let st' = (Repeat rep st).1 in
        ground (arith, run_repetition-IsIdle rep st, run_cycle-IsIdle reps st' b)

    -- When the readbacks are truthful and the setpoint registers leave the output as it is: a cycle
    -- that returns, begun with the output and every relay off, has ended the charge and the discharge
    -- of every repetition by their criteria, and leaves the output and every relay off.
    pub run_cycle_sequence-IsIdle :
        (storage : StorageCall → Option Exception) (v : Option ℤ) (reps : List (Repetition S))
        (st : Station S T)
        → let (r, st') =
            run_cycle_sequence dev net p cfg monitor settle_s relay_address floor_v storage v reps
              st in
          IsIdle st → r ≡ ok true → IsIdle st' × All IsFinished reps
    unfolding run_cycle_sequence
    run_cycle_sequence-IsIdle storage v reps st idle h =
        let guarded = run_guarded dev net storage v (Cycling reps) st in
        ground (
          arith,
          complete-drivers dev net storage v guarded.1,
          run_guarded-ok dev net storage v (Cycling reps) st true,
          run_guarded-ok dev net storage v (Cycling reps) st false,
          run_cycle-IsIdle reps st true idle,
          run_cycle-IsIdle reps st false idle,
        )
