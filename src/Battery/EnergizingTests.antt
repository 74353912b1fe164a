-- ===== src/Battery/EnergizingTests.antt =====
-- The steps before the loop of a charge, on a small supply and a bank of one relay.
use nipxi.Prelude.{◌-◌, ◌^◌, ◌≡◌, refl, Bool, true, false, none, some, []}
use nipxi.Prelude.Int.{pos}
use nipxi.Prelude.Exec.{ok}
use nipxi.Hardware.SourcingTests.{supply, controls, identity, supplying, supply_truthful}
use nipxi.Hardware.Smu.Sourcing.Modes.{IsOn}
use nipxi.Hardware.DeviceTests.{small_net, small_net_truthful, energized, one_relay}
use nipxi.Safety.Monitor.{finite, charge}
use nipxi.Safety.Guard.{Station}
use nipxi.Safety.SafetyTests.{monitor}
use nipxi.Battery.Sampling.{Judge, judge_charge}
use nipxi.Battery.Operation.{Course, prepare, check_battery_polarity}
use nipxi.Hardware.Smu.{force_output_off_and_verify, query_output_state}
use nipxi.Hardware.Smu.Sourcing.{
  configure_current_source, safe_baseline, configure_and_verify, on_session, configure_current,
  output_enable,
}
use nipxi.Hardware.RelayEth.{
  close_channel, close_impl, validate_channel, force_all_off_and_verify, write_all,
  call_with_reconnect, send_and_capture, verify_all, read_all, parsed, write, validate_relay_number,
  check_current_relay_state, verify_single, read_relay, settle,
}
use nipxi.Hardware.RelayEth.Parsing.{
  parse_readall_response, before_prompt, parse_read_response, trailing_digits,
}
use nipxi.Battery.Operation.Outcome.{is_unfit}
use nipxi.Battery.Operation.Energizing.{driven, prepare-IsEnergized}

abbrev course : Course Bool
course = record {
  cancelled_before = false;
  storage_raises = λ e. false;
  sense_raises = none;
  pre_enable_v = some (finite (pos 4000));
  set_mode = λ s. (false, s);
  output_enable = λ s. (false, s);
  cancelled_in_stabilization = false;
  rounds = [];
}

abbrev station : Station Bool Bool
station = record {
  drivers = record { smu = supplying; relay = one_relay };
  records = [];
  readings = 0;
}

abbrev judge : Judge
judge = judge_charge (pos 5) (pos 5) (pos 1)

begins :
    (prepare supply small_net judge
      (pos 7200)
      charge
      monitor
      1
      1
      (driven supply controls charge (pos 5) (pos 5) course)
      station).0
    ≡ ok tt
unfolding prepare close_channel close_impl validate_channel force_all_off_and_verify write_all
    call_with_reconnect send_and_capture verify_all read_all parsed parse_readall_response write
    validate_relay_number check_current_relay_state verify_single read_relay check_battery_polarity
    before_prompt parse_read_response trailing_digits settle configure_current_source safe_baseline
    force_output_off_and_verify configure_and_verify on_session configure_current output_enable
    query_output_state
begins = refl

prepare-IsEnergized_example :
    IsOn identity
      (prepare supply small_net judge
        (pos 7200)
        charge
        monitor
        1
        1
        (driven supply controls charge (pos 5) (pos 5) course)
        station).1.drivers.smu.session
    × ((prepare supply small_net judge
          (pos 7200)
          charge
          monitor
          1
          1
          (driven supply controls charge (pos 5) (pos 5) course)
          station).1.drivers.smu.last_known_output_state
        ≡ some true)
    × (energized
          (prepare supply small_net judge
            (pos 7200)
            charge
            monitor
            1
            1
            (driven supply controls charge (pos 5) (pos 5) course)
            station).1.drivers.relay.module_state
        ≡ 2 ^ (1 - 1))
    × (is_unfit course.pre_enable_v ≡ false)
prepare-IsEnergized_example =
    prepare-IsEnergized supply controls small_net judge (pos 7200) charge monitor 1 1 course (pos 5)
      (pos 5) identity energized supply_truthful small_net_truthful station begins
