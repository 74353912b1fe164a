-- ===== src/Hardware/SenseTests.antt =====
-- A sense channel on a matrix of one relay that is not open yet.
use nipxi.Prelude.{ℕ, ◌≡◌, refl, Bool, Option, some, [], ◌∷◌, nat_eq}
use nipxi.Prelude.Exec.{Result, ok}
use nipxi.Hardware.RelayEth.{
  Matrix, Error, close_channel, close_impl, validate_channel, force_all_off_and_verify, write_all,
  call_with_reconnect, send_and_capture, verify_all, read_all, parsed, write, validate_relay_number,
  check_current_relay_state, verify_single, read_relay, open_channel, open_impl, settle, open_all,
}
use nipxi.Hardware.RelayEth.Parsing.{
  parse_readall_response, before_prompt, parse_read_response, trailing_digits,
}
use nipxi.Hardware.DeviceTests.{small_net, small_net_truthful, energized, one_relay}
use nipxi.Hardware.SenseRouter.{
  MatrixName, Route, Routing, Routers, channel_to_relay, router_for_matrix, on_channel,
  read_battery_voltage_via_sense,
}
use nipxi.Hardware.SenseRouter.Reading.{reading}

abbrev route : Route
route = record { relay_matrix = 201; relay = 1 }

abbrev routing : Routing
routing = (1, route) ∷ []

abbrev created : MatrixName → Option (Result Error (Matrix Bool))
created name = some (ok one_relay)

abbrev none_open : Routers Bool
none_open = []

abbrev measured : Option ℕ
measured = some 3900

reads :
    (read_battery_voltage_via_sense small_net 1 routing created measured (some 1) none_open).0
    ≡ reading small_net 1 routing created energized small_net_truthful measured
unfolding read_battery_voltage_via_sense on_channel router_for_matrix channel_to_relay close_channel
    close_impl validate_channel force_all_off_and_verify write_all call_with_reconnect
    send_and_capture verify_all read_all parsed write validate_relay_number
    check_current_relay_state verify_single read_relay open_channel open_impl settle open_all
    parse_readall_response before_prompt parse_read_response trailing_digits
reads = refl
