-- ===== src/Battery/Operation/Outcome.antt =====
-- test_control/charge_sequence.py and discharge_sequence.py: what a run leaves of the two drivers.
use nipxi.Prelude.{ℕ, ◌≡◌, ◌≢◌, Bool, true, ◌||◌, Option, none, some, arith}
use nipxi.Prelude.Exec.{ok}
use nipxi.Prelude.Int.{ℤ}
use nipxi.Hardware.Smu.{Session}
use nipxi.Hardware.Smu.Shutdown.{IsOff, emergency_output_off-IsOff}
use nipxi.Hardware.Smu.Shutdown
use nipxi.Hardware.RelayEth.{Transport, open_channel}
use nipxi.Hardware.RelayEth.Safety.{open_channel-AllOff}
use nipxi.Hardware.RelayEth.Safety
use nipxi.Safety.Monitor.{Float, SafetyMonitor, Mode, at_most}
use nipxi.Safety.EmergencyStop.{KeepsOutput, zero-Keeps}
use nipxi.Safety.Guard.{Exception, StorageCall, Station, Op, run_guarded}
use nipxi.Safety.Guard.Bookkeeping.{complete-drivers, run_guarded-ok}
use nipxi.Battery.Diagnostics.{reverse_polarity_threshold}
use nipxi.Battery.Sampling.{Judge, end_reached}
use nipxi.Battery.Operation.{
  Course, prepare, check_battery_polarity, energized_phase, open_relay, finish_run, operate,
  run_position, loop_ending,
}

-- No voltage was measured, or one of reversed polarity.
abbrev pub is_unfit : Option Float → Bool
is_unfit none = true
is_unfit (some v) = at_most v reverse_polarity_threshold

module _ {S T : Type 0} (dev : Session S) (net : Transport T) (judge : Judge) (timeout_s : ℤ)
    (mode : Mode) (monitor : SafetyMonitor) (settle_s relay_address : ℕ) (course : Course S) where
  -- When the voltage before the output is enabled shows reversed polarity, or cannot be measured, or
  -- the run is cancelled before it begins, the SMU is left untouched, and the operation does not
  -- return.
  pub operate-untouched :
      (st : Station S T)
      → is_unfit course.pre_enable_v || course.cancelled_before ≡ true
      → let (r, st') =
          operate dev net judge timeout_s mode monitor settle_s relay_address course st in
        (st'.drivers.smu ≡ st.drivers.smu) × ((b : Bool) → r ≢ ok b)
  unfolding operate prepare check_battery_polarity
  operate-untouched st unfit = (ground arith, λ b h. ground arith)

  module _ (output_on : S → Bool) (energized : T → ℕ)
      (smu_truthful : Shutdown.IsTruthful dev output_on)
      (net_truthful : Safety.IsTruthful net energized) (keeps : KeepsOutput dev net output_on) where
    abbrev EnergizedPart : Op S T Bool
    EnergizedPart =
        energized_phase dev net judge timeout_s mode monitor settle_s relay_address course

    energized_phase-IsOff :
        (st : Station S T)
        → (EnergizedPart st).0 ≡ ok true
        → IsOff output_on (EnergizedPart st).1.drivers.smu.session
          × (loop_ending dev net judge timeout_s mode monitor settle_s relay_address course
              ≡ end_reached)
    unfolding energized_phase
    energized_phase-IsOff st h =
        ground (arith, emergency_output_off-IsOff dev output_on smu_truthful st.drivers.smu)

    abbrev OpenRelay : Op S T Bool
    OpenRelay = open_relay dev net judge timeout_s mode monitor settle_s relay_address course

    open_relay-IsOff :
        (st : Station S T) (b : Bool)
        → IsOff output_on st.drivers.smu.session
        → (OpenRelay st).0 ≡ ok b
        → IsOff output_on (OpenRelay st).1.drivers.smu.session
          × (energized (OpenRelay st).1.drivers.relay.module_state ≡ 0)
          × (b ≡ true)
    unfolding open_relay
    open_relay-IsOff st b off h =
        let opened = open_channel net settle_s relay_address st.drivers.relay in
        ground (
          arith,
          zero-Keeps dev net output_on keeps st.drivers.smu,
          (open_channel-AllOff net energized net_truthful settle_s relay_address
              st.drivers.relay).0,
        )

    abbrev Operate : Op S T Bool
    Operate = operate dev net judge timeout_s mode monitor settle_s relay_address course

    operate-IsOff :
        (st : Station S T) (b : Bool)
        → (Operate st).0 ≡ ok b
        → IsOff output_on (Operate st).1.drivers.smu.session
          × (energized (Operate st).1.drivers.relay.module_state ≡ 0)
          × (loop_ending dev net judge timeout_s mode monitor settle_s relay_address course
              ≡ end_reached)
    unfolding operate finish_run
    operate-IsOff st b h =
        let prepared =
          (prepare dev net judge timeout_s mode monitor settle_s relay_address course st).1 in
        let charged = (EnergizedPart prepared).1 in
        ground (arith, energized_phase-IsOff prepared, open_relay-IsOff charged b)

    -- When the readbacks are truthful and the setpoint registers leave the output as it is, a charge
    -- or a discharge that returns has ended by its criterion, with the output off and every relay
    -- off.
    pub run_position-IsOff :
        (storage : StorageCall → Option Exception) (v : Option ℤ) (st : Station S T) (b : Bool)
        → let (r, st') =
            run_position dev net judge timeout_s mode monitor settle_s relay_address course storage
              v st in
          r ≡ ok b
          → IsOff output_on st'.drivers.smu.session
            × (energized st'.drivers.relay.module_state ≡ 0)
            × (loop_ending dev net judge timeout_s mode monitor settle_s relay_address course
                ≡ end_reached)
    unfolding run_position
    run_position-IsOff storage v st b h =
        let guarded = run_guarded dev net storage v Operate st in
        ground (
          arith,
          complete-drivers dev net storage v guarded.1,
          run_guarded-ok dev net storage v Operate st b,
          operate-IsOff st b,
        )
