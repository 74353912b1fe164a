-- ===== src/Battery/BatteryTests.antt =====
-- A charge that completes, rounds in which the DMM fails, and positions that are unfit.
use nipxi.Prelude.{
  ℕ, ◌≡◌, ◌≢◌, ◌↔◌, refl, Bool, true, false, ◌-◌, ◌*◌, Option, none, some, All, List, [], ◌∷◌, any,
}
use nipxi.Prelude.Int.{ℤ, pos, negsuc, pos_part}
use nipxi.Prelude.Exec.{ok}
use nipxi.Hardware.Smu.{
  apply_zero_setpoint, attempt, check_output_disabled_detailed, emergency_output_off,
  output_disable, retry, zero_registers,
}
use nipxi.Hardware.RelayEth.{
  close_channel, close_impl, validate_channel, force_all_off_and_verify, write_all,
  call_with_reconnect, send_and_capture, verify_all, read_all, parsed, write, validate_relay_number,
  check_current_relay_state, verify_single, read_relay, emergency_all_off, open_all, open_channel,
  open_impl, reconnect, retry_once, settle, stop_execution,
}
use nipxi.Hardware.RelayEth.Parsing.{
  parse_readall_response, before_prompt, parse_read_response, trailing_digits,
}
use nipxi.Hardware.Smu.Shutdown.{IsOff}
use nipxi.Hardware.DeviceTests.{
  Output, small_session, small_session_truthful, output_on, small_net, small_net_truthful,
  energized,
}
use nipxi.Safety.Monitor.{BatteryCfg, Float, finite, charge, check, current_max}
use nipxi.Safety.Guard.{Station, StorageCall, Exception, run_guarded, complete, store}
use nipxi.Safety.SafetyTests.{small_keeps, station, monitor}
use nipxi.Battery.Diagnostics.{leb_ℤ, reaches_charge, charge_transition_suggests_battery_removed}
use nipxi.Battery.Temperature.{
  temperature_of, absent_voltage, short_voltage, plausible_min, plausible_max,
}
use nipxi.Battery.Temperature.Range.{temperature_of_iff}
use nipxi.Battery.Sampling.{
  cutoff_of, Round, Judge, judge_charge, end_reached, out_of_rounds, sample_loop,
}
use nipxi.Battery.Sampling.Endings.{
  is_late_or_unsafe, verdict_of, first_verdict, sample_loop-timeout, sample_loop_lem,
}
use nipxi.Battery.Operation.{
  Setpoints, run_charge_sequence, run_discharge_sequence, Course, operate, prepare,
  check_battery_polarity, energized_phase, finish_run, open_relay, run_position, loop_ending,
}
use nipxi.Battery.Cycle.{
  Phase, Repetition, run_phase, run_repetition, run_cycle, run_cycle_sequence,
}
use nipxi.Battery.Cycle.Repetitions.{IsIdle, IsFinished, run_cycle_sequence-IsIdle}
use nipxi.Battery.Operation.Outcome.{run_position-IsOff}

-- A charge with 500 to 4200 and down to 50.
abbrev judge : Judge
judge = judge_charge (pos 500) (pos 4200) (pos 50)

abbrev round_at : ℕ → Option Float → ℕ → Round
round_at elapsed voltage current = record {
  cancelled_at_check = false;
  elapsed = pos elapsed;
  smu_current = some (finite (pos current));
  dmm_voltage = voltage;
  temp_c = none;
  log_raises = false;
  record_raises = false;
  cancelled_in_sleep = false;
}

abbrev charging : List Round
charging =
    round_at 1 (some (finite (pos 4000))) 500
    ∷ round_at 2 none 500
    ∷ round_at 3 (some (finite (pos 4190))) 60
    ∷ round_at 4 (some (finite (pos 4200))) 40
    ∷ []

abbrev limit : ℤ
limit = pos 7200

charges : (sample_loop judge limit charge monitor 0 none charging).0 ≡ end_reached
unfolding sample_loop check current_max reaches_charge charge_transition_suggests_battery_removed
charges = refl

sample_loop_lem_example :
    (any
        (is_late_or_unsafe judge limit charge monitor)
        (sample_loop judge limit charge monitor 0 none charging).1
      ≡ false)
    × (verdict_of (sample_loop judge limit charge monitor 0 none charging).0
        ≡ first_verdict judge none (sample_loop judge limit charge monitor 0 none charging).1)
sample_loop_lem_example = sample_loop_lem judge limit charge monitor 0 none charging

abbrev too_late : List Round
too_late = round_at 1 none 500 ∷ round_at 7201 none 500 ∷ []

sample_loop-timeout_example :
    (sample_loop judge limit charge monitor 0 none too_late).0 ≢ out_of_rounds
sample_loop-timeout_example = sample_loop-timeout judge limit charge monitor 0 none too_late refl

abbrev course_from : Option Float → Course Output
course_from v = record {
  cancelled_before = false;
  storage_raises = λ e. false;
  sense_raises = none;
  pre_enable_v = v;
  set_mode = λ s. (true, s);
  output_enable = λ s. (true, record s { session = some (0, true) });
  cancelled_in_stabilization = false;
  rounds = charging;
}

-- A battery put in the wrong way round.
abbrev reversed_course : Course Output
reversed_course = course_from (some (finite (negsuc 3999)))

abbrev course : Course Output
course = course_from (some (finite (pos 3900)))

abbrev working_disk : StorageCall → Option Exception
working_disk call = none

run_returns :
    (run_position small_session small_net judge limit charge monitor 1 1 course working_disk none
      station).0
    ≡ ok true
unfolding sample_loop check current_max reaches_charge charge_transition_suggests_battery_removed
    run_position operate prepare check_battery_polarity energized_phase finish_run open_relay
    run_guarded complete store close_channel close_impl validate_channel force_all_off_and_verify
    write_all call_with_reconnect send_and_capture verify_all read_all parsed write
    validate_relay_number check_current_relay_state verify_single read_relay emergency_all_off
    open_all open_channel open_impl reconnect retry_once settle stop_execution
    parse_readall_response before_prompt parse_read_response trailing_digits apply_zero_setpoint
    attempt check_output_disabled_detailed emergency_output_off output_disable retry zero_registers
run_returns = refl

run_position-IsOff_example :
    let (r, st') =
      run_position small_session small_net judge limit charge monitor 1 1 course working_disk none
        station in
    IsOff output_on st'.drivers.smu.session
    × (energized st'.drivers.relay.module_state ≡ 0)
    × (loop_ending small_session small_net judge limit charge monitor 1 1 course ≡ end_reached)
run_position-IsOff_example =
    run_position-IsOff small_session small_net judge limit charge monitor 1 1 course output_on
      energized small_session_truthful small_net_truthful small_keeps working_disk none station true
      run_returns

-- One repetition of that charge and a discharge to 3600, from a station that is idle.
abbrev setpoints : Setpoints
setpoints = record {
  charge_current_a = pos 500;
  charge_voltage_v = pos 4200;
  charge_timeout_s = limit;
  charge_cutoff_a = pos 50;
  discharge_cutoff_v = pos 3600;
  discharge_timeout_s = limit;
}

abbrev cfg : BatteryCfg
cfg = record {
  voltage_max_v = none;
  voltage_min_v = none;
  max_temp_c = none;
  max_charge_current_a = none;
  max_discharge_current_a = none;
}

abbrev phase : List Round → Phase Output
phase rounds = record {
  opening_raises = none;
  course = record course { rounds = rounds };
  storage = working_disk;
  final_voltage = none;
  closing_raises = none;
}

abbrev repetition : Repetition Output
repetition = record {
  cancelled_before = false;
  log_raises = λ milestone. false;
  charging = phase charging;
  cancelled_after_charge = false;
  cancelled_in_rest = false;
  discharging = phase (round_at 1 (some (finite (pos 3550))) 400 ∷ []);
}

abbrev idle_station : Station Output Bool
idle_station = record {
  drivers = record {
    smu = record { session = some (0, false); last_known_output_state = none; events = [] };
    relay = record { num_channels = 1; last_known_mask = none; module_state = false };
  };
  records = [];
  readings = 0;
}

cycle_returns :
    (run_cycle_sequence small_session small_net setpoints cfg monitor 1 1
      (pos 3000)
      working_disk
      none
      (repetition ∷ [])
      idle_station).0
    ≡ ok true
unfolding run_cycle_sequence run_cycle run_repetition run_phase run_charge_sequence
    run_discharge_sequence cutoff_of sample_loop check current_max reaches_charge
    charge_transition_suggests_battery_removed run_position operate prepare check_battery_polarity
    energized_phase finish_run open_relay run_guarded complete store close_channel close_impl
    validate_channel force_all_off_and_verify write_all call_with_reconnect send_and_capture
    verify_all read_all parsed write validate_relay_number check_current_relay_state verify_single
    read_relay emergency_all_off open_all open_channel open_impl reconnect retry_once settle
    stop_execution parse_readall_response before_prompt parse_read_response trailing_digits
    apply_zero_setpoint attempt check_output_disabled_detailed emergency_output_off output_disable
    retry zero_registers
cycle_returns = refl

run_cycle_sequence-IsIdle_example :
    IsIdle small_session small_net setpoints cfg monitor 1 1
      (pos 3000)
      output_on
      energized
      small_session_truthful
      small_net_truthful
      small_keeps
      (run_cycle_sequence small_session small_net setpoints cfg monitor 1 1
        (pos 3000)
        working_disk
        none
        (repetition ∷ [])
        idle_station).1
    × All
        (IsFinished small_session small_net setpoints cfg monitor 1 1 (pos 3000))
        (repetition ∷ [])
run_cycle_sequence-IsIdle_example =
    run_cycle_sequence-IsIdle small_session small_net setpoints cfg monitor 1 1 (pos 3000) output_on
      energized small_session_truthful small_net_truthful small_keeps working_disk none
      (repetition ∷ []) idle_station (refl, refl) cycle_returns

-- A formula in place of the logarithm: 25 degrees at 2.5 V, and 88 at 0.4 V.
abbrev linear : ℤ → ℤ
linear v = pos (100000 - 30 * pos_part v)

temperature_of_iff_example : (temperature_of linear (pos 2500) ≡ some (finite (pos 25000))) ↔ (
    (leb_ℤ (pos 2500) absent_voltage ≡ false)
    × (leb_ℤ short_voltage (pos 2500) ≡ false)
    × (linear (pos 2500) ≡ pos 25000)
    × (leb_ℤ plausible_min (pos 25000) ≡ true)
    × (leb_ℤ (pos 25000) plausible_max ≡ true))
temperature_of_iff_example = temperature_of_iff linear (pos 2500) (pos 25000)
