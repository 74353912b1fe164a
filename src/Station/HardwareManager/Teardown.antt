-- ===== src/Station/HardwareManager/Teardown.antt =====
-- test_control/hardware_manager.py: what `disconnect_all` leaves.
use nipxi.Prelude.{
  ℕ, ◌≡◌, ◌⊎◌, unless, refl, Bool, true, false, not, ◌&&◌, ◌||◌, List, [], ◌∷◌, if◌then◌else◌,
  arith,
}
use nipxi.Hardware.Smu.{Session, emergency_output_off}
use nipxi.Hardware.Smu.Shutdown.{IsOff, emergency_output_off-IsOff}
use nipxi.Hardware.Smu.Shutdown
use nipxi.Hardware.RelayEth.{Transport, open_all}
use nipxi.Hardware.RelayEth.Safety.{open_channel-AllOff}
use nipxi.Hardware.RelayEth.Safety
use nipxi.Safety.EmergencyStop.{KeepsOutput, zero-Keeps}
use nipxi.Station.HardwareManager.Devices.{among-disconnect_each}
use nipxi.Station.HardwareManager.{
  Device, smu, relay, same_device, among, Equipment, Wiring, Manager, check_output, check_relays,
  make_safe, to_disconnect, disconnect_all, all_devices, disconnect_each, disconnect_device,
}

disconnect_each-drivers :
    {S T : Type 0} (ds : List Device) (m : Manager S T)
    → ((disconnect_each ds m).smu_driver ≡ m.smu_driver)
      × ((disconnect_each ds m).relay_driver ≡ m.relay_driver)
unfolding disconnect_each
disconnect_each-drivers [] m = (refl, refl)
disconnect_each-drivers (d ∷ ds) m =
    let m' = if among d m.connected then disconnect_device d m else m in
    ground (arith, disconnect_each-drivers ds m')

module _ {S T : Type 0} (dev : Session S) (net : Transport T) (kit : Equipment) (w : Wiring S T)
    (output_on : S → Bool) (energized : T → ℕ) (smu_truthful : Shutdown.IsTruthful dev output_on)
    (net_truthful : Safety.IsTruthful net energized) (keeps : KeepsOutput dev net output_on) where
  make_safe-connected : (m : Manager S T) → (make_safe dev net kit w m).1.connected ≡ m.connected
  unfolding make_safe check_output check_relays
  make_safe-connected m = ground arith

  make_safe-IsOff :
      (m : Manager S T)
      → among smu m.connected ≡ true
      → (make_safe dev net kit w m).0.0 ≡ true
      → IsOff output_on (make_safe dev net kit w m).1.smu_driver.session
  unfolding make_safe check_output check_relays
  make_safe-IsOff m has h =
      let off = (emergency_output_off dev m.smu_driver).1 in
      ground (
        arith,
        emergency_output_off-IsOff dev output_on smu_truthful m.smu_driver,
        zero-Keeps dev net output_on keeps off,
      )

  make_safe-relay :
      (m : Manager S T)
      → among relay m.connected ≡ true
      → ((make_safe dev net kit w m).1.relay_driver ≡ (open_all net m.relay_driver).1)
        × ((make_safe dev net kit w m).0.1 ≡ true
            → energized (make_safe dev net kit w m).1.relay_driver.module_state ≡ 0)
  unfolding make_safe check_output check_relays
  make_safe-relay m has = (
    ground arith,
    λ h. ground (arith, (open_channel-AllOff net energized net_truthful 1 1 m.relay_driver).1),
  )

  pub disconnect_all-connected :
      (m : Manager S T) (d : Device)
      → let ((safe, opened), m') = disconnect_all dev net kit w m in
        among d m'.connected ≡ (
          among d m.connected
          && (not (among d (all_devices dev net kit w)) || same_device d smu && not safe))
  unfolding disconnect_all same_device
  disconnect_all-connected m d =
      let (outcome, m') = make_safe dev net kit w m in
      let devices = to_disconnect dev net kit w outcome.0 in
      ground (arith, among-disconnect_each d devices m', make_safe-connected m)

  pub disconnect_all-IsOff :
      (m : Manager S T)
      → let ((safe, opened), m') = disconnect_all dev net kit w m in
        among smu m.connected && safe ≡ true → IsOff output_on m'.smu_driver.session
  unfolding disconnect_all
  disconnect_all-IsOff m h =
      let (outcome, m') = make_safe dev net kit w m in
      let devices = to_disconnect dev net kit w outcome.0 in
      ground (arith, make_safe-IsOff m, disconnect_each-drivers devices m')

  disconnect_all-relay :
      (m : Manager S T)
      → among relay m.connected ≡ true
      → let ((safe, opened), m') = disconnect_all dev net kit w m in
        (m'.relay_driver ≡ (open_all net m.relay_driver).1)
        × (opened ≡ true → energized m'.relay_driver.module_state ≡ 0)
  unfolding disconnect_all
  disconnect_all-relay m has =
      let (outcome, m') = make_safe dev net kit w m in
      let devices = to_disconnect dev net kit w outcome.0 in
      (
        ground (arith, make_safe-relay m, disconnect_each-drivers devices m'),
        λ h. ground (arith, make_safe-relay m, disconnect_each-drivers devices m'),
      )

  -- When the readbacks are truthful and the setpoint registers leave the output as it is: after
  -- `disconnect_all` the devices of the manager are disconnected, but for the SMU when its output
  -- could not be verified off; the output of an SMU that was connected is off unless that is so; and
  -- a relay matrix that was connected got the command to open all, whatever became of the output,
  -- and all its relays are off unless it reports a fault.
  pub disconnect_all_lem :
      (m : Manager S T)
      → let ((safe, opened), m') = disconnect_all dev net kit w m in
        ((d : Device)
          → among d m'.connected ≡ (
              among d m.connected
              && (not (among d (all_devices dev net kit w)) || same_device d smu && not safe)))
        × ((among smu m.connected && safe ≡ false) ⊎ IsOff output_on m'.smu_driver.session)
        × ((among relay m.connected ≡ false)
            ⊎ ((m'.relay_driver ≡ (open_all net m.relay_driver).1)
                × ((opened ≡ false) ⊎ (energized m'.relay_driver.module_state ≡ 0))))
  disconnect_all_lem m =
      let ((safe, opened), m') = disconnect_all dev net kit w m in
      (
        disconnect_all-connected m,
        unless (among smu m.connected && safe) (disconnect_all-IsOff m),
        unless (among relay m.connected)
            (λ has. ((disconnect_all-relay m has).0, unless opened (disconnect_all-relay m has).1)),
      )
