-- ===== src/Battery/ScanTests.antt =====
-- A scan of one position with two samples a phase and a dwell of two rounds, on a bank of one relay.
use nipxi.Prelude.{ℕ, ◌+◌, ◌≡◌, refl, Bool, false, none, [], ◌∷◌}
use nipxi.Prelude.Exec.{ok}
use nipxi.Hardware.SourcingTests.{supply, supplying}
use nipxi.Hardware.DeviceTests.{small_net, small_net_truthful, energized, one_relay}
use nipxi.Hardware.RelayEth.{
  close_channel, close_impl, open_channel, open_impl, validate_channel, force_all_off_and_verify,
  write_all, call_with_reconnect, send_and_capture, verify_all, read_all, parsed, write,
  validate_relay_number, check_current_relay_state, verify_single, read_relay, settle,
}
use nipxi.Hardware.RelayEth.Parsing.{
  parse_readall_response, before_prompt, parse_read_response, trailing_digits,
}
use nipxi.Safety.Guard.{Station, run_guarded, complete, store}
use nipxi.Battery.Scan.{
  DwellRound, ScanCourse, daq_value, daq_error, sample_dmm, take_readings, dwell_round, dwell_loop,
  scan_phase, scan_closed, monitor_dwell, scan_before, scan_between, scan_after, scan_one_position,
  scan_this_position, scan_positions, run_scan,
}
use nipxi.Battery.Scan.Idle.{samples_in, IsScanned, run_scan-IsScanned}

abbrev dwelling : ℕ → DwellRound
dwelling at = record {
  cancelled_in_sleep = false;
  elapsed = at;
  dmm_raises = false;
  daq = daq_error;
  daq_log_raises = false;
  record_raises = false;
  log_raises = false;
}

abbrev position : ScanCourse
position = record {
  relay_address = 1;
  select_raises = false;
  cancelled_before = false;
  storage_raises = λ e. false;
  dmm_raises = λ p n. false;
  daq = daq_value;
  dwell = dwelling 4 ∷ dwelling 11 ∷ dwelling 15 ∷ [];
}

abbrev station : Station Bool Bool
station = record {
  drivers = record { smu = supplying; relay = one_relay };
  records = [];
  readings = 0;
}

scans :
    (run_scan supply small_net 1 2 10 (λ call. none) none false (position ∷ []) station).0 ≡ ok 8
unfolding run_scan scan_positions scan_this_position scan_one_position scan_before scan_between
    scan_after scan_phase scan_closed sample_dmm take_readings monitor_dwell dwell_loop dwell_round
    run_guarded complete store close_channel close_impl open_channel open_impl validate_channel
    force_all_off_and_verify write_all call_with_reconnect send_and_capture verify_all read_all
    parsed write validate_relay_number check_current_relay_state verify_single read_relay settle
    parse_readall_response before_prompt parse_read_response trailing_digits
scans = refl

run_scan-IsScanned_example :
    let st' =
      (run_scan supply small_net 1 2 10 (λ call. none) none false (position ∷ []) station).1 in
    (8 ≡ samples_in supply small_net 1 2 10 (position ∷ []))
    × (st'.readings ≡ 0 + samples_in supply small_net 1 2 10 (position ∷ []))
    × IsScanned supply small_net 1 2 10 energized small_net_truthful (position ∷ []) station st'
run_scan-IsScanned_example =
    run_scan-IsScanned supply small_net 1 2 10 energized small_net_truthful (λ call. none) none
      false 8 (position ∷ []) station scans
