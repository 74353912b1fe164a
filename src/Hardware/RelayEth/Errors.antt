-- ===== src/Hardware/RelayEth/Errors.antt =====
-- hardware/relay_eth.py: what is left when a method stops with an error.
use nipxi.Prelude.{ℕ, ◌-◌, ◌^◌, ◌≤◌, ◌≡◌, Bool, true, arith, Bool-cases, inl, inr, ltb}
use nipxi.Prelude.Exec.{Result, err}
use nipxi.Hardware.RelayEth.{
  Transport, Matrix, Error, state_verification_error, Command, readall, writeall, send_and_capture,
  retry_once, reconnect, call_with_reconnect, read_all, verify_all, stop_execution, write_all,
  force_all_off_and_verify, open_impl, close_impl, settle, open_channel, close_channel, parsed,
  check_current_relay_state, validate_channel, write, verify_single, read_relay, relay_read,
  relay_write, addr_str, validate_relay_number,
}
use nipxi.Hardware.RelayEth.Safety.{IsTruthful, emergency_lem}

module _ {S : Type 0} (net : Transport S) (energized : S → ℕ)
    (truthful : IsTruthful net energized) where
  -- The error says that the emergency shutdown succeeded only when every relay is off.
  abbrev pub IsForcedOff : {A : Type 0} → Result Error A → Matrix S → Type 0
  IsForcedOff r m = r ≡ err (state_verification_error true) → energized m.module_state ≡ 0

  call-IsForcedOff :
      (cmd : Command) (m : Matrix S)
      → IsForcedOff (call_with_reconnect net cmd m).0 (call_with_reconnect net cmd m).1
  unfolding call_with_reconnect reconnect retry_once send_and_capture
  call-IsForcedOff cmd m = ground arith

  stop-IsForcedOff : (m : Matrix S) → IsForcedOff (stop_execution net m).0 (stop_execution net m).1
  unfolding stop_execution
  stop-IsForcedOff m e = ground (arith, emergency_lem net energized truthful m)

  verify_all-IsForcedOff :
      (mask : ℕ) (m : Matrix S) → IsForcedOff (verify_all net mask m).0 (verify_all net mask m).1
  unfolding verify_all read_all parsed
  verify_all-IsForcedOff mask m e =
      ground (arith, call-IsForcedOff readall m, stop-IsForcedOff (read_all net m).1)

  validate-IsForcedOff :
      (n : ℕ) (m : Matrix S)
      → IsForcedOff (validate_relay_number n m).0 (validate_relay_number n m).1
  unfolding validate_relay_number
  validate-IsForcedOff n m = elim (Bool-cases (ltb n m.num_channels)) [
    | inl e ↦ rw e (λ h. ground arith)
    | inr e ↦ rw e (λ h. ground arith)
  ]

  verify_single-IsForcedOff :
      (n : ℕ) (expected : Bool) (m : Matrix S)
      → IsForcedOff (verify_single net n expected m).0 (verify_single net n expected m).1
  unfolding verify_single read_relay
  verify_single-IsForcedOff n expected m e = ground (
    arith,
    validate-IsForcedOff n m,
    call-IsForcedOff (relay_read (addr_str n)) (validate_relay_number n m).1,
    stop-IsForcedOff (read_relay net n m).1,
  )

  force-IsForcedOff :
      (m : Matrix S)
      → IsForcedOff (force_all_off_and_verify net m).0 (force_all_off_and_verify net m).1
  unfolding force_all_off_and_verify write_all
  force-IsForcedOff m e =
      let checked = (check_current_relay_state net m).1 in
      ground (
        arith,
        call-IsForcedOff (writeall 0) checked,
        verify_all-IsForcedOff 0 (write_all net 0 checked).1,
      )

  write-IsForcedOff :
      (n : ℕ) (state : Bool) (m : Matrix S)
      → IsForcedOff (write net n state m).0 (write net n state m).1
  unfolding write
  write-IsForcedOff n state m e = ground (
    arith,
    validate-IsForcedOff n m,
    call-IsForcedOff (relay_write state (addr_str n)) (validate_relay_number n m).1,
  )

  -- When the readback is truthful and `close` or `open` stops with a verification error that reports
  -- a successful emergency shutdown, every relay is off.
  pub stopped-IsForcedOff :
      (settle_s channel : ℕ) (m : Matrix S)
      → IsForcedOff
          (close_channel net settle_s channel m).0
          (close_channel net settle_s channel m).1
        × IsForcedOff
            (open_channel net settle_s channel m).0
            (open_channel net settle_s channel m).1
  unfolding close_channel close_impl open_channel open_impl validate_channel settle
  stopped-IsForcedOff settle_s channel m =
      let forced = (force_all_off_and_verify net m).1 in
      let written = (write net (channel - 1) true forced).1 in
      let checked = (verify_single net (channel - 1) true written).1 in
      (
        λ e. ground (
          arith,
          force-IsForcedOff m,
          write-IsForcedOff (channel - 1) true forced,
          verify_single-IsForcedOff (channel - 1) true written,
          verify_all-IsForcedOff (2 ^ (channel - 1)) checked,
        ),
        λ e. ground (arith, force-IsForcedOff m),
      )

-- When the bank cannot be verified off first, `close` raises what that raised and sends nothing more:
-- neither the driver nor the module changes any further.
pub close_channel-baseline :
    {S : Type 0} (net : Transport S) (settle_s channel : ℕ) (m : Matrix S) (e : Error)
    → 1 ≤ channel
    → channel ≤ m.num_channels
    → (force_all_off_and_verify net m).0 ≡ err e
    → (close_channel net settle_s channel m).0 ≡ err e
      × (close_channel net settle_s channel m).1 ≡ (force_all_off_and_verify net m).1
unfolding close_channel close_impl validate_channel
close_channel-baseline net settle_s channel m e low high h = ground arith
