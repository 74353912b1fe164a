-- ===== src/Hardware/DeviceTests.antt =====
-- The drivers on small devices: an output that obeys the second time, and a bank of one relay.
use nipxi.Prelude.{ℕ, zero, suc, ◌≤◌, ◌≡◌, refl, Bool, true, false, none, some, [], ◌∷◌, arith}
use nipxi.Prelude.Exec.{Result, ok, err}
use nipxi.Hardware.Smu.{
  Session, Smu, emergency_output_off, apply_zero_setpoint, output_disable,
  check_output_disabled_detailed, attempt, retry, zero_registers,
}
use nipxi.Hardware.Smu.Shutdown.{IsOff, emergency_output_off-IsOff}
use nipxi.Hardware.RelayEth.{
  Transport, Matrix, SocketError, Command, writeall, readall, relay_write, relay_read, open_channel,
  close_channel, close_impl, validate_channel, settle, force_all_off_and_verify,
  check_current_relay_state, write_all, verify_all, read_all, call_with_reconnect, send_and_capture,
  parsed, write, verify_single, read_relay, validate_relay_number, emergency_all_off,
  stop_execution, os, state_verification_error,
}
use nipxi.Hardware.RelayEth.Parsing.{
  Bytes, parse_readall_response, parse_read_response, before_prompt, trailing_digits,
}
use nipxi.Hardware.RelayEth.Safety.{IsTruthful, close_channel-IsExclusive}
use nipxi.Hardware.RelayEth.Errors.{IsForcedOff, stopped-IsForcedOff}

-- The number of disable commands that are still ignored, and the output.
abbrev pub Output : Type 0
Output = ℕ × Bool

abbrev pub disable_output : Output → Output
disable_output (zero, on) = (zero, false)
disable_output (suc n, on) = (n, on)

abbrev pub small_session : Session Output
small_session = record {
  abort = λ s. (ok tt, s);
  disable = λ s. (ok tt, disable_output s);
  output_enabled = λ s. (ok s.1, s);
  is_dc_current = λ s. (ok true, s);
  read = λ _ s. (ok tt, s);
  write_zero = λ _ s. (ok tt, s);
  commit = λ s. (ok tt, s);
}

abbrev pub output_on : Output → Bool
output_on s = s.1

abbrev pub enabled_smu : Smu Output
enabled_smu = record { session = some (1, true); last_known_output_state = none; events = [] }

pub small_session_truthful :
    (s : Output) (b : Bool)
    → (small_session.output_enabled s).0 ≡ ok b
    → output_on (small_session.output_enabled s).1 ≡ b
small_session_truthful s b h = ground arith

emergency_output_off-IsOff_example :
    IsOff output_on (emergency_output_off small_session enabled_smu).1.session
unfolding emergency_output_off retry attempt output_disable check_output_disabled_detailed
    apply_zero_setpoint zero_registers
emergency_output_off-IsOff_example =
    emergency_output_off-IsOff small_session output_on small_session_truthful enabled_smu refl

retries : (emergency_output_off small_session enabled_smu).0 ≡ true
unfolding emergency_output_off retry attempt output_disable check_output_disabled_detailed
    apply_zero_setpoint zero_registers
retries = refl

-- "01>" and "00>", "on>" and "off>".
abbrev pub mask_text : Bool → Bytes
mask_text true = 48 ∷ 49 ∷ 62 ∷ []
mask_text false = 48 ∷ 48 ∷ 62 ∷ []

abbrev pub state_text : Bool → Bytes
state_text true = 111 ∷ 110 ∷ 62 ∷ []
state_text false = 111 ∷ 102 ∷ 102 ∷ 62 ∷ []

abbrev pub small_net : Transport Bool
small_net = record { exchange = answer; connect = λ s. (ok tt, s) }
  where
    answer : Command → Bool → Result SocketError Bytes × Bool
    answer (writeall mask) s = (ok [], false)
    answer readall s = (ok (mask_text s), s)
    answer (relay_write on n) s = (ok [], on)
    answer (relay_read n) s = (ok (state_text s), s)

abbrev pub energized : Bool → ℕ
energized true = 1
energized false = 0

pub small_net_truthful : IsTruthful small_net energized
unfolding parse_readall_response before_prompt trailing_digits
small_net_truthful true mask h = ground arith
small_net_truthful false mask h = ground arith

abbrev pub one_relay : Matrix Bool
one_relay = record { num_channels = 1; last_known_mask = none; module_state = true }

closes : (close_channel small_net 1 1 one_relay).0 ≡ ok tt
unfolding close_channel close_impl settle validate_channel force_all_off_and_verify
    check_current_relay_state write_all verify_all read_all call_with_reconnect send_and_capture
    parsed write verify_single read_relay validate_relay_number parse_readall_response
    parse_read_response before_prompt trailing_digits
closes = refl

close_channel-IsExclusive_example :
    (1 ≤ 1 × 1 ≤ 1 × 1 ≤ 1)
    × (energized (close_channel small_net 1 1 one_relay).1.module_state ≡ 1)
    × ((close_channel small_net 1 1 one_relay).1.last_known_mask ≡ some 1)
close_channel-IsExclusive_example =
    close_channel-IsExclusive small_net energized small_net_truthful 1 1 one_relay closes

-- A bank whose relay does not answer to "relay on".
abbrev stuck_net : Transport Bool
stuck_net = record { exchange = answer; connect = λ s. (ok tt, s) }
  where
    answer : Command → Bool → Result SocketError Bytes × Bool
    answer (writeall mask) s = (ok [], false)
    answer readall s = (ok (mask_text s), s)
    answer (relay_write on n) s = (ok [], s)
    answer (relay_read n) s = (ok (state_text s), s)

stuck_net_truthful : IsTruthful stuck_net energized
unfolding parse_readall_response before_prompt trailing_digits
stuck_net_truthful true mask h = ground arith
stuck_net_truthful false mask h = ground arith

stopped-IsForcedOff_example :
    IsForcedOff stuck_net energized stuck_net_truthful
      (close_channel stuck_net 1 1 one_relay).0
      (close_channel stuck_net 1 1 one_relay).1
    × IsForcedOff stuck_net energized stuck_net_truthful
        (open_channel stuck_net 1 1 one_relay).0
        (open_channel stuck_net 1 1 one_relay).1
stopped-IsForcedOff_example =
    stopped-IsForcedOff stuck_net energized stuck_net_truthful 1 1 one_relay

stops_when_stuck : (close_channel stuck_net 1 1 one_relay).0 ≡ err (state_verification_error true)
unfolding close_channel close_impl settle validate_channel force_all_off_and_verify
    check_current_relay_state write_all verify_all read_all call_with_reconnect send_and_capture
    parsed write verify_single read_relay validate_relay_number parse_readall_response
    parse_read_response before_prompt trailing_digits stop_execution emergency_all_off
stops_when_stuck = refl

-- A bank that drops the connection when a relay is read.
abbrev reset_net : Transport Bool
reset_net = record { exchange = λ _ s. (err os, s); connect = λ s. (ok tt, s) }
