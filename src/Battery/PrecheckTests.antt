-- ===== src/Battery/PrecheckTests.antt =====
-- A position whose sensor is open, on a matrix of one relay.
use nipxi.Prelude.{◌≡◌, refl, Bool, true, false, Option, some}
use nipxi.Prelude.Int.{pos}
use nipxi.Prelude.Exec.{ok}
use nipxi.Hardware.RelayEth.{
  close_channel, close_impl, validate_channel, force_all_off_and_verify, write_all,
  call_with_reconnect, send_and_capture, verify_all, read_all, parsed, write, validate_relay_number,
  check_current_relay_state, verify_single, read_relay, open_channel, open_impl, settle, open_all,
}
use nipxi.Hardware.RelayEth.Parsing.{
  parse_readall_response, before_prompt, parse_read_response, trailing_digits,
}
use nipxi.Hardware.DeviceTests.{small_net, one_relay}
use nipxi.Safety.Monitor.{Float, finite}
use nipxi.Battery.Temperature
use nipxi.Battery.Precheck.{NtcEntry, Write, PresenceReport, presence_precheck, report_of}

abbrev open_sensor : Option NtcEntry
open_sensor =
    some record { presence = some Temperature.absent; readable = true; daq_comm_failure = false }

abbrev voltage : Option Float
voltage = some (finite (pos 3900))

abbrev writes : Write → Bool
writes w = false

abbrev report : PresenceReport
report = report_of voltage open_sensor

checks : (presence_precheck small_net 1 1 writes voltage open_sensor one_relay).0 ≡ ok report
unfolding presence_precheck close_channel close_impl validate_channel force_all_off_and_verify
    write_all call_with_reconnect send_and_capture verify_all read_all parsed write
    validate_relay_number check_current_relay_state verify_single read_relay open_channel open_impl
    settle open_all parse_readall_response before_prompt parse_read_response trailing_digits
checks = refl
