-- ===== src/Hardware/RelayEth/Safety.antt =====
-- hardware/relay_eth.py: what the bank's state is when a method returns.
use nipxi.Prelude.{ℕ, ◌-◌, ◌^◌, ◌≤◌, ◌≡◌, true, Option, none, some, arith}
use nipxi.Prelude.Exec.{Result, ok, err}
use nipxi.Hardware.RelayEth.{
  Transport, Matrix, Error, readall, writeall, send_and_capture, emergency_all_off, retry_once,
  reconnect, call_with_reconnect, read_all, verify_all, stop_execution, write_all,
  force_all_off_and_verify, open_impl, close_impl, settle, open_channel, close_channel, open_all,
  parsed, check_current_relay_state, validate_channel, write, verify_single,
}
use nipxi.Hardware.RelayEth.Parsing.{Bytes, parse_readall_response}

-- The mask in what came back, if there is one.
abbrev pub mask_of : {E : Type 0} → Result E Bytes → Option ℕ
mask_of (ok response) = parse_readall_response response
mask_of (err _) = none

-- What the module documents of "relay readall": the mask in the response is the state of the bank.
abbrev pub IsTruthful : {S : Type 0} → Transport S → (S → ℕ) → Type 0
IsTruthful {S} net energized =
    (s : S) (mask : ℕ)
    → mask_of (net.exchange readall s).0 ≡ some mask
    → energized (net.exchange readall s).1 ≡ mask

module _ {S : Type 0} (net : Transport S) (energized : S → ℕ)
    (truthful : IsTruthful net energized) where
  -- A mask in a response to `readall` is the state of the bank in `m`.
  abbrev Shows : Result Error Bytes → Matrix S → Type 0
  Shows r m = (mask : ℕ) → mask_of r ≡ some mask → energized m.module_state ≡ mask

  send-Shows :
      (m : Matrix S) → Shows (send_and_capture net readall m).0 (send_and_capture net readall m).1
  unfolding send_and_capture
  send-Shows m mask e = ground (arith, truthful m.module_state mask)

  retry-Shows : (m : Matrix S) → Shows (retry_once net readall m).0 (retry_once net readall m).1
  unfolding retry_once
  retry-Shows m mask e = ground (arith, send-Shows m mask)

  reconnect-Shows : (m : Matrix S) → Shows (reconnect net readall m).0 (reconnect net readall m).1
  unfolding reconnect
  reconnect-Shows m mask e =
      let connected = record m { module_state = (net.connect m.module_state).1 } in
      ground (arith, retry-Shows connected mask)

  call-Shows :
      (m : Matrix S)
      → Shows (call_with_reconnect net readall m).0 (call_with_reconnect net readall m).1
  unfolding call_with_reconnect
  call-Shows m mask e =
      let sent = (send_and_capture net readall m).1 in
      ground (arith, send-Shows m mask, reconnect-Shows sent mask)

  read_all_lem :
      (m : Matrix S) (mask : ℕ)
      → (read_all net m).0 ≡ ok mask
      → (energized (read_all net m).1.module_state ≡ mask)
        × ((read_all net m).1.last_known_mask ≡ some mask)
  unfolding read_all parsed
  read_all_lem m mask e = ground (arith, call-Shows m mask)

  verify_all_lem :
      (m : Matrix S) (mask : ℕ)
      → (verify_all net mask m).0 ≡ ok tt
      → (energized (verify_all net mask m).1.module_state ≡ mask)
        × ((verify_all net mask m).1.last_known_mask ≡ some mask)
  unfolding verify_all stop_execution
  verify_all_lem m mask e = ground (arith, read_all_lem m mask)

  pub emergency_lem :
      (m : Matrix S)
      → (emergency_all_off net m).0 ≡ true
      → energized (emergency_all_off net m).1.module_state ≡ 0
  unfolding emergency_all_off parsed
  emergency_lem m e = ground (arith, send-Shows (send_and_capture net (writeall 0) m).1 0)

  force_lem :
      (m : Matrix S)
      → (force_all_off_and_verify net m).0 ≡ ok tt
      → energized (force_all_off_and_verify net m).1.module_state ≡ 0
  unfolding force_all_off_and_verify
  force_lem m e =
      let checked = (check_current_relay_state net m).1 in
      ground (arith, verify_all_lem (write_all net 0 checked).1 0)

  -- When the readback is truthful, `open` and `open_all` that return leave every relay off.
  pub open_channel-AllOff :
      (settle_s channel : ℕ) (m : Matrix S)
      → ((open_channel net settle_s channel m).0 ≡ ok tt
          → energized (open_channel net settle_s channel m).1.module_state ≡ 0)
        × ((open_all net m).0 ≡ ok tt → energized (open_all net m).1.module_state ≡ 0)
  unfolding open_channel open_impl open_all validate_channel settle
  open_channel-AllOff settle_s channel m = (ground (arith, force_lem m), force_lem m)

  -- When the readback is truthful, a `close` that returns was asked for a channel of the matrix with
  -- a delay above zero, and leaves that relay on, all others off, and this state recorded.
  pub close_channel-IsExclusive :
      (settle_s channel : ℕ) (m : Matrix S)
      → (close_channel net settle_s channel m).0 ≡ ok tt
      → (1 ≤ settle_s × 1 ≤ channel × channel ≤ m.num_channels)
        × (energized (close_channel net settle_s channel m).1.module_state ≡ 2 ^ (channel - 1))
        × ((close_channel net settle_s channel m).1.last_known_mask ≡ some (2 ^ (channel - 1)))
  unfolding close_channel close_impl validate_channel settle
  close_channel-IsExclusive settle_s channel m e =
      let forced = (force_all_off_and_verify net m).1 in
      let written = (write net (channel - 1) true forced).1 in
      let checked = (verify_single net (channel - 1) true written).1 in
      ground (arith, verify_all_lem checked (2 ^ (channel - 1)))
