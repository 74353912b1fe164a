-- ===== src/Station/HardwareManager/AtExit/SafetyNet.antt =====
-- test_control/hardware_manager.py: what the handlers leave, on their own and after `disconnect_all`.
use nipxi.Prelude.{ℕ, ◌≡◌, ◌⊎◌, unless, Bool, true, false, not, ◌&&◌, ◌||◌, arith}
use nipxi.Hardware.Smu.{Session}
use nipxi.Hardware.Smu.Shutdown.{IsOff}
use nipxi.Hardware.Smu.Shutdown
use nipxi.Hardware.RelayEth.{Transport}
use nipxi.Hardware.RelayEth.Safety
use nipxi.Safety.EmergencyStop.{KeepsOutput}
use nipxi.Station.HardwareManager.{
  smu, relay, same_device, among, Equipment, Wiring, Manager, check_output, check_relays,
  disconnect_all,
}
use nipxi.Station.HardwareManager.Startup.{check_output-IsOff, check_relays-AllOff}
use nipxi.Station.HardwareManager.Teardown.{disconnect_all-connected, disconnect_all-IsOff}
use nipxi.Station.HardwareManager.AtExit.{atexit_smu_shutdown, atexit_relay_shutdown, at_exit}

module _ {S T : Type 0} (dev : Session S) (net : Transport T) (kit : Equipment) (w : Wiring S T)
    (output_on : S → Bool) (energized : T → ℕ) (smu_truthful : Shutdown.IsTruthful dev output_on)
    (net_truthful : Safety.IsTruthful net energized) (keeps : KeepsOutput dev net output_on) where
  atexit_smu_shutdown_lem :
      (m : Manager S T)
      → let (off, m') = atexit_smu_shutdown dev net kit w m in
        (m'.connected ≡ m.connected)
        × (m'.relay_driver ≡ m.relay_driver)
        × (among smu m.connected ≡ false → m' ≡ m)
        × (among smu m.connected && off ≡ true → IsOff output_on m'.smu_driver.session)
  unfolding atexit_smu_shutdown check_output
  atexit_smu_shutdown_lem m = (
    ground arith,
    ground arith,
    λ h. ground arith,
    λ h.
        ground
          (arith, check_output-IsOff dev net kit w output_on energized smu_truthful net_truthful m),
  )

  atexit_relay_shutdown_lem :
      (m : Manager S T)
      → let (opened, m') = atexit_relay_shutdown dev net kit w m in
        (m'.connected ≡ m.connected)
        × (m'.smu_driver ≡ m.smu_driver)
        × (among relay m.connected ≡ false → m' ≡ m)
        × (among relay m.connected && opened ≡ true → energized m'.relay_driver.module_state ≡ 0)
  unfolding atexit_relay_shutdown check_relays
  atexit_relay_shutdown_lem m = (
    ground arith,
    ground arith,
    λ h. ground arith,
    λ h.
        ground (
          arith,
          check_relays-AllOff dev net kit w output_on energized smu_truthful net_truthful m,
        ),
  )

  at_exit-smu :
      (m : Manager S T)
      → let ((off, opened), m') = at_exit dev net kit w m in
        (among smu m.connected ≡ false → m'.smu_driver ≡ m.smu_driver)
        × (among smu m.connected && off ≡ true → IsOff output_on m'.smu_driver.session)
  unfolding at_exit
  at_exit-smu m =
      let m1 = (atexit_smu_shutdown dev net kit w m).1 in
      (
        λ h. ground (arith, atexit_smu_shutdown_lem m, atexit_relay_shutdown_lem m1),
        λ h. ground (arith, atexit_smu_shutdown_lem m, atexit_relay_shutdown_lem m1),
      )

  at_exit-relay :
      (m : Manager S T)
      → let ((off, opened), m') = at_exit dev net kit w m in
        (among relay m.connected ≡ false → m'.relay_driver ≡ m.relay_driver)
        × (among relay m.connected && opened ≡ true → energized m'.relay_driver.module_state ≡ 0)
  unfolding at_exit
  at_exit-relay m =
      let m1 = (atexit_smu_shutdown dev net kit w m).1 in
      (
        λ h. ground (arith, atexit_smu_shutdown_lem m, atexit_relay_shutdown_lem m1),
        λ h. ground (arith, atexit_smu_shutdown_lem m, atexit_relay_shutdown_lem m1),
      )

  teardown_disconnects :
      (m : Manager S T)
      → let ((safe, opened), m') = disconnect_all dev net kit w m in
        (among relay m'.connected ≡ false)
        × (among smu m'.connected ≡ (among smu m.connected && not safe))
  unfolding same_device
  teardown_disconnects m = (
    ground (
      arith,
      disconnect_all-connected dev net kit w output_on energized smu_truthful net_truthful keeps m
          relay,
    ),
    ground (
      arith,
      disconnect_all-connected dev net kit w output_on energized smu_truthful net_truthful keeps m
          smu,
    ),
  )

  -- When the readbacks are truthful and the setpoint registers leave the output as it is, and the
  -- process exits after `disconnect_all`: the handlers give the relay matrix no command, even where
  -- `disconnect_all` reports that it could not open all relays; they give the SMU none where its output
  -- was verified off; and the output of an SMU that was connected is off at the end, unless
  -- `disconnect_all` and the handler both report that it is not.
  pub exit_after_teardown :
      (m : Manager S T)
      → let ((safe, opened), m1) = disconnect_all dev net kit w m in
        let ((off, opened'), m2) = at_exit dev net kit w m1 in
        (m2.relay_driver ≡ m1.relay_driver)
        × ((safe ≡ false) ⊎ (m2.smu_driver ≡ m1.smu_driver))
        × ((among smu m.connected && (safe || off) ≡ false) ⊎ IsOff output_on m2.smu_driver.session)
  exit_after_teardown m =
      let ((safe, opened), m1) = disconnect_all dev net kit w m in
      let ((off, opened'), m2) = at_exit dev net kit w m1 in
      (
        ground (arith, teardown_disconnects m, at_exit-relay m1),
        unless safe (λ h. ground (arith, teardown_disconnects m, at_exit-smu m1)),
        unless (among smu m.connected && (safe || off)) (λ h. ground (
          arith,
          teardown_disconnects m,
          at_exit-smu m1,
          disconnect_all-IsOff dev net kit w output_on energized smu_truthful net_truthful keeps m,
        )),
      )

  -- When the readbacks are truthful and the setpoint registers leave the output as it is, and the
  -- process exits without `disconnect_all`: the output of an SMU that is connected is off unless its
  -- handler logs CRITICAL, and so are the relays of a matrix that is connected unless its handler
  -- does, whatever became of the output.
  pub at_exit-IsSafe :
      (m : Manager S T)
      → let ((off, opened), m') = at_exit dev net kit w m in
        ((among smu m.connected && off ≡ false) ⊎ IsOff output_on m'.smu_driver.session)
        × ((among relay m.connected && opened ≡ false)
            ⊎ (energized m'.relay_driver.module_state ≡ 0))
  at_exit-IsSafe m =
      let ((off, opened), m') = at_exit dev net kit w m in
      (
        unless (among smu m.connected && off) (at_exit-smu m).1,
        unless (among relay m.connected && opened) (at_exit-relay m).1,
      )
