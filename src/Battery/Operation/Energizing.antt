-- ===== src/Battery/Operation/Energizing.antt =====
-- test_control/charge_sequence.py and discharge_sequence.py with the modes of hardware/smu.py: what
-- holds when the loop begins.
use nipxi.Prelude.{ℕ, ◌-◌, ◌^◌, ◌≡◌, Bool, true, false, some, arith}
use nipxi.Prelude.Exec.{Result, ok, err}
use nipxi.Prelude.Int.{ℤ}
use nipxi.Hardware.Smu.{Session, Smu}
use nipxi.Hardware.Smu.Shutdown
use nipxi.Hardware.Smu.Sourcing.{Call, Controls, set_charge_mode, set_discharge_mode, output_enable}
use nipxi.Hardware.Smu.Sourcing.Modes.{IsOn, output_enable-IsOn}
use nipxi.Hardware.RelayEth.{Transport, close_channel}
use nipxi.Hardware.RelayEth.Safety.{close_channel-IsExclusive}
use nipxi.Hardware.RelayEth.Safety
use nipxi.Safety.Monitor.{SafetyMonitor, Mode, charge, discharge}
use nipxi.Safety.Guard.{Station}
use nipxi.Battery.Sampling.{Judge}
use nipxi.Battery.Operation.{Course, prepare, check_battery_polarity}
use nipxi.Battery.Operation.Outcome.{is_unfit}

abbrev succeeds : {E A : Type 0} → Result E A → Bool
succeeds (ok a) = true
succeeds (err e) = false

module _ {S : Type 0} (dev : Session S) (ctl : Controls S) where
  abbrev pub completed : {A : Type 0} → Call S A → Smu S → Bool × Smu S
  completed call smu = let (r, smu') = call smu in (succeeds r, smu')

  -- The course of a charge or a discharge with these setpoints, where the SMU is the modelled driver.
  abbrev pub driven : Mode → ℤ → ℤ → Course S → Course S
  driven charge a v course = record course {
    set_mode = completed (set_charge_mode dev ctl a v);
    output_enable = completed (output_enable dev ctl);
  }
  driven discharge a v course = record course {
    set_mode = completed (set_discharge_mode dev ctl a v);
    output_enable = completed (output_enable dev ctl);
  }

  -- When the readbacks are truthful, the loop of a charge or a discharge begins only with the output
  -- of the SMU on and recorded as on, the relay of the position on and every other off, and a voltage
  -- that was measured and does not show reversed polarity.
  pub prepare-IsEnergized :
      {T : Type 0} (net : Transport T) (judge : Judge) (timeout_s : ℤ) (mode : Mode)
      (monitor : SafetyMonitor) (settle_s relay_address : ℕ) (course : Course S) (a v : ℤ)
      (output_on : S → Bool) (energized : T → ℕ)
      → Shutdown.IsTruthful dev output_on
      → Safety.IsTruthful net energized
      → (st : Station S T)
      → let (r, st') =
          prepare dev net judge timeout_s mode monitor settle_s relay_address
            (driven mode a v course)
            st in
        r ≡ ok tt
        → IsOn output_on st'.drivers.smu.session
          × (st'.drivers.smu.last_known_output_state ≡ some true)
          × (energized st'.drivers.relay.module_state ≡ 2 ^ (relay_address - 1))
          × (is_unfit course.pre_enable_v ≡ false)
  unfolding prepare check_battery_polarity
  prepare-IsEnergized net judge timeout_s charge monitor settle_s n course a v output_on energized
        smu_truthful net_truthful st h =
      let closed = (close_channel net settle_s n st.drivers.relay).1 in
      let configured = (set_charge_mode dev ctl a v st.drivers.smu).1 in
      ground (
        arith,
        close_channel-IsExclusive net energized net_truthful settle_s n st.drivers.relay,
        output_enable-IsOn dev ctl output_on smu_truthful configured,
      )
  prepare-IsEnergized net judge timeout_s discharge monitor settle_s n course a v output_on
        energized smu_truthful net_truthful st h =
      let closed = (close_channel net settle_s n st.drivers.relay).1 in
      let configured = (set_discharge_mode dev ctl a v st.drivers.smu).1 in
      ground (
        arith,
        close_channel-IsExclusive net energized net_truthful settle_s n st.drivers.relay,
        output_enable-IsOn dev ctl output_on smu_truthful configured,
      )
