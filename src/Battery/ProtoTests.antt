-- ===== src/Battery/ProtoTests.antt =====
-- The prototype test of one relay, on a small supply and a bank of one relay.
use nipxi.Prelude.{◌≡◌, refl, Bool, false, some, [], ◌∷◌}
use nipxi.Prelude.Int.{pos}
use nipxi.Prelude.Exec.{ok}
use nipxi.Hardware.SourcingTests.{supply, controls, identity, supplying, supply_disables}
use nipxi.Hardware.DeviceTests.{small_net, small_net_truthful, energized, one_relay}
use nipxi.Hardware.Smu.{force_output_off_and_verify, output_disable, verify_output_disabled}
use nipxi.Hardware.Smu.Sourcing.{on_session, safe_baseline}
use nipxi.Hardware.Smu.PointSource.{
  source_dc_voltage_point, source_then_disable, source_and_measure, acquire_initiated, acquire,
  configure_point,
}
use nipxi.Hardware.RelayEth.{
  close_channel, close_impl, open_channel, open_impl, validate_channel, force_all_off_and_verify,
  write_all, call_with_reconnect, send_and_capture, verify_all, read_all, parsed, write,
  validate_relay_number, check_current_relay_state, verify_single, read_relay, settle,
}
use nipxi.Hardware.RelayEth.Parsing.{
  parse_readall_response, before_prompt, parse_read_response, trailing_digits,
}
use nipxi.Safety.Monitor.{finite}
use nipxi.Safety.Guard.{Station}
use nipxi.Battery.ProtoTest.{ProtoCourse, test_relay, test_guarded, test_relays, run_proto_test}
use nipxi.Battery.ProtoTest.Safe.{IsTested, run_proto_test-IsTested}

abbrev relay_1 : ProtoCourse
relay_1 = record {
  relay_n = 1;
  cancelled_before = false;
  storage_raises = λ e. false;
  dmm_voltage = some (finite (pos 5));
  dmm_log_raises = false;
  cancelled_in_hold = false;
}

abbrev station : Station Bool Bool
station = record {
  drivers = record { smu = supplying; relay = one_relay };
  records = [];
  readings = 0;
}

passes :
    (run_proto_test supply controls small_net 1
      (pos 5)
      (pos 5)
      (pos 6)
      relay_1
      (relay_1 ∷ [])
      station).0
    ≡ ok tt
unfolding run_proto_test test_relays test_guarded test_relay source_dc_voltage_point
    source_then_disable source_and_measure acquire_initiated acquire configure_point on_session
    safe_baseline force_output_off_and_verify output_disable verify_output_disabled close_channel
    close_impl open_channel open_impl validate_channel force_all_off_and_verify write_all
    call_with_reconnect send_and_capture verify_all read_all parsed write validate_relay_number
    check_current_relay_state verify_single read_relay settle parse_readall_response before_prompt
    parse_read_response trailing_digits
passes = refl

run_proto_test-IsTested_example :
    IsTested supply controls small_net 1
      (pos 5)
      (pos 5)
      (pos 6)
      identity
      energized
      supply_disables
      small_net_truthful
      (relay_1 ∷ [])
      station
      (run_proto_test supply controls small_net 1
        (pos 5)
        (pos 5)
        (pos 6)
        relay_1
        (relay_1 ∷ [])
        station).1
run_proto_test-IsTested_example =
    run_proto_test-IsTested supply controls small_net 1 (pos 5) (pos 5) (pos 6) identity energized
      supply_disables small_net_truthful relay_1 (relay_1 ∷ []) station passes
