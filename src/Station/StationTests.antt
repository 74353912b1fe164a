-- ===== src/Station/StationTests.antt =====
-- A manager of small drivers, and a sweep of two SMUs and one relay matrix.
use nipxi.Prelude.{
  ◌≡◌, ◌⊎◌, refl, Bool, true, false, not, ◌&&◌, ◌||◌, none, List, [], ◌∷◌, length, All,
}
use nipxi.Hardware.Smu.{
  Smu, emergency_output_off, retry, attempt, output_disable, check_output_disabled_detailed,
  apply_zero_setpoint, zero_registers,
}
use nipxi.Hardware.Smu.Shutdown.{IsOff}
use nipxi.Hardware.RelayEth.{
  Matrix, open_all, force_all_off_and_verify, check_current_relay_state, write_all, read_all,
  call_with_reconnect, send_and_capture, parsed, verify_all,
}
use nipxi.Hardware.RelayEth.Parsing.{parse_readall_response, before_prompt, trailing_digits}
use nipxi.Hardware.DeviceTests.{
  Output, small_session, small_session_truthful, output_on, enabled_smu, small_net,
  small_net_truthful, energized, one_relay,
}
use nipxi.Safety.SafetyTests.{small_keeps}
use nipxi.Station.HardwareManager.{
  Device, daq, smu, relay, same_device, among, Equipment, Wiring, Manager, connect_all_strict,
  all_devices, disconnect_all,
}
use nipxi.Station.HardwareManager.Startup.{StrictPromise, connect_all_strict_lem}
use nipxi.Station.HardwareManager.Teardown.{disconnect_all_lem}
use nipxi.Station.HardwareManager.AtExit.{at_exit}
use nipxi.Station.HardwareManager.AtExit.SafetyNet.{at_exit-IsSafe, exit_after_teardown}
use nipxi.Station.SafetySweep.{Configured, sweep_smus, sweep_relays, run_startup_safety_sweep}
use nipxi.Station.SafetySweep.Verified.{
  SmuIsOff, MatrixIsOff, reachable, run_startup_safety_sweep_lem,
}

abbrev kit : Equipment
kit = record { has_dmm = true; has_own_ntc_daq = false }

abbrev wiring : Wiring Output Bool
wiring = record {
  connects = λ d. true;
  smu_connect = λ s. (true, enabled_smu);
  relay_connect = λ m. (true, one_relay);
}

abbrev idle : Manager Output Bool
idle = record {
  smu_driver = record { session = none; last_known_output_state = none; events = [] };
  relay_driver = one_relay;
  connected = [];
  disconnects = [];
}

connect_all_strict_lem_example :
    let (r, m') = connect_all_strict small_session small_net kit wiring idle in
    StrictPromise small_session small_net kit wiring output_on energized small_session_truthful
      small_net_truthful r m'
connect_all_strict_lem_example =
    connect_all_strict_lem small_session small_net kit wiring output_on energized
      small_session_truthful small_net_truthful idle refl

abbrev working : Manager Output Bool
working = record {
  smu_driver = enabled_smu;
  relay_driver = one_relay;
  connected = daq ∷ smu ∷ relay ∷ [];
  disconnects = [];
}

disconnect_all_lem_example :
    let ((safe, opened), m') = disconnect_all small_session small_net kit wiring working in
    ((d : Device)
      → among d m'.connected ≡ (
          among d working.connected
          && (not (among d (all_devices small_session small_net kit wiring))
              || same_device d smu && not safe)))
    × ((among smu working.connected && safe ≡ false) ⊎ IsOff output_on m'.smu_driver.session)
    × ((among relay working.connected ≡ false)
        ⊎ ((m'.relay_driver ≡ (open_all small_net working.relay_driver).1)
            × ((opened ≡ false) ⊎ (energized m'.relay_driver.module_state ≡ 0))))
disconnect_all_lem_example =
    disconnect_all_lem small_session small_net kit wiring output_on energized small_session_truthful
      small_net_truthful small_keeps working

exit_after_teardown_example :
    let ((safe, opened), m1) = disconnect_all small_session small_net kit wiring working in
    let ((off, opened'), m2) = at_exit small_session small_net kit wiring m1 in
    (m2.relay_driver ≡ m1.relay_driver)
    × ((safe ≡ false) ⊎ (m2.smu_driver ≡ m1.smu_driver))
    × ((among smu working.connected && (safe || off) ≡ false)
        ⊎ IsOff output_on m2.smu_driver.session)
exit_after_teardown_example =
    exit_after_teardown small_session small_net kit wiring output_on energized
      small_session_truthful small_net_truthful small_keeps working

at_exit-IsSafe_example :
    let ((off, opened), m') = at_exit small_session small_net kit wiring working in
    ((among smu working.connected && off ≡ false) ⊎ IsOff output_on m'.smu_driver.session)
    × ((among relay working.connected && opened ≡ false)
        ⊎ (energized m'.relay_driver.module_state ≡ 0))
at_exit-IsSafe_example =
    at_exit-IsSafe small_session small_net kit wiring output_on energized small_session_truthful
      small_net_truthful small_keeps working

abbrev two_smus : List (Configured (Smu Output))
two_smus =
    record { name = 1; connects = true; driver = enabled_smu }
    ∷ record { name = 2; connects = false; driver = enabled_smu }
    ∷ []

abbrev one_matrix : List (Configured (Matrix Bool))
one_matrix = record { name = 3; connects = true; driver = one_relay } ∷ []

sweep_returns : (run_startup_safety_sweep small_session small_net two_smus one_matrix).0 ≡ none
unfolding run_startup_safety_sweep sweep_smus sweep_relays emergency_output_off retry attempt
    output_disable check_output_disabled_detailed apply_zero_setpoint zero_registers open_all
    force_all_off_and_verify check_current_relay_state write_all read_all call_with_reconnect
    send_and_capture parsed verify_all parse_readall_response before_prompt trailing_digits
sweep_returns = refl

run_startup_safety_sweep_lem_example :
    let swept = run_startup_safety_sweep small_session small_net two_smus one_matrix in
    All
      (SmuIsOff small_session small_net output_on energized small_session_truthful
        small_net_truthful)
      swept.1
    × (length swept.1 ≡ reachable two_smus)
    × All
        (MatrixIsOff small_session small_net output_on energized small_session_truthful
          small_net_truthful)
        swept.2
    × (length swept.2 ≡ reachable one_matrix)
run_startup_safety_sweep_lem_example =
    run_startup_safety_sweep_lem small_session small_net output_on energized small_session_truthful
      small_net_truthful two_smus one_matrix sweep_returns
