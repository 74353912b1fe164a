-- ===== src/Hardware/RelayEth.antt =====
-- hardware/relay_eth.py and the concrete methods of hardware/relay.py: one relay at a time, with the
-- bank forced off and read back first. The socket and `connect` are parameters.
pub mod Parsing
pub mod Safety
pub mod Errors
use nipxi.Prelude.{
  ℕ, ◌+◌, ◌-◌, ◌^◌, Bool, true, false, not, ◌&&◌, ◌||◌, Option, none, some, if◌then◌else◌, ltb, leb,
  ◌==◌,
}
use nipxi.Prelude.Exec.{Result, ok, err, Action, pure, raise, modify, ◌>>=◌, ◌>>◌}
use nipxi.Hardware.RelayEth.Parsing.{
  Bytes, parse_readall_response, parse_read_response, is_rejected,
}

-- What the socket's methods raise: a RelayError, a NIPXITimeoutError, or an OSError of `recv`.
pub data SocketError : Type 0 where
  closed timed_out os : SocketError

-- What the methods of the driver raise. A verification error says whether the emergency shutdown succeeded; an
-- OSError is neither a RelayError nor a NIPXITimeoutError.
pub data Error : Type 0 where
  relay_error timeout_error os_error validation_error reconnect_failed : Error
  state_verification_error : Bool → Error

abbrev pub raised : SocketError → Error
raised closed = relay_error
raised timed_out = timeout_error
raised os = os_error

pub data Command : Type 0 where
  writeall : ℕ → Command
  readall : Command
  relay_write : Bool → ℕ → Command
  relay_read : ℕ → Command

-- What a send and the wait for the ">" prompt do to the module and the network, and what comes back.
pub record Transport (S : Type 0) : Type 0 where
  pub exchange : Command → Action SocketError S Bytes
  pub connect : Action SocketError S (Unit {0})

pub record Matrix (S : Type 0) : Type 0 where
  pub num_channels : ℕ
  pub last_known_mask : Option ℕ
  pub module_state : S

abbrev pub Method : Type 0 → Type 0 → Type 0
Method S A = Action Error (Matrix S) A

-- `RelayBase._validate_channel` and `_validate_relay_number`.
unfoldable pub validate_channel : {S : Type 0} → ℕ → Method S (Unit {0})
validate_channel channel m =
    if leb 1 channel && leb channel m.num_channels then pure tt m else raise validation_error m

unfoldable pub validate_relay_number : {S : Type 0} → ℕ → Method S (Unit {0})
validate_relay_number n m = if ltb n m.num_channels then pure tt m else raise validation_error m

-- `_addr_str` as the code of its one character.
abbrev pub addr_str : ℕ → ℕ
addr_str n = if ltb n 10 then 48 + n else 65 + n - 10

-- The errors that `except (RelayError, NIPXITimeoutError)` takes, of those that a command raises.
abbrev pub is_communication : Error → Bool
is_communication relay_error = true
is_communication timeout_error = true
is_communication os_error = false
is_communication validation_error = false
is_communication reconnect_failed = true
is_communication (state_verification_error _) = true

module _ {S : Type 0} (net : Transport S) where
  abbrev pub lift : {A : Type 0} → Action SocketError S A → Method S A
  lift act m =
      let (r, s) = act m.module_state in
      let m' = record m { module_state = s } in
      elim r [ ok a ↦ (ok a, m') | err e ↦ (err (raised e), m') ]

  unfoldable pub send_and_capture : Command → Method S Bytes
  send_and_capture cmd = lift (net.exchange cmd) >>= λ response.
      if is_rejected response then raise relay_error else pure response

  unfoldable pub parsed : Option ℕ → Method S ℕ
  parsed (some mask) = pure mask
  parsed none = raise relay_error

  -- `_emergency_all_off`: it answers whether the bank is confirmed off.
  unfoldable pub emergency_all_off : Matrix S → Bool × Matrix S
  emergency_all_off m =
      let (r, m') =
        (send_and_capture (writeall 0) >> send_and_capture readall >>= λ response.
        parsed (parse_readall_response response))
          m in
      elim r [ ok mask ↦ (mask == 0, m') | err _ ↦ (false, m') ]

  -- The second `fn(*args)` of `_call_with_reconnect` and its `except`.
  unfoldable pub retry_once : Command → Method S Bytes
  retry_once cmd m =
      let (r, m') = send_and_capture cmd m in
      elim r [
        | ok response ↦ (ok response, m')
        | err e ↦ (err e, if is_communication e then (emergency_all_off m').1 else m')
      ]

  -- The `except` of its first `fn(*args)`.
  unfoldable pub reconnect : Command → Method S Bytes
  reconnect cmd m =
      let (connected, m') = lift net.connect m in
      elim connected [
        | err _ ↦ (err reconnect_failed, (emergency_all_off m').1)
        | ok _ ↦ retry_once cmd m'
      ]

  unfoldable pub call_with_reconnect : Command → Method S Bytes
  call_with_reconnect cmd m =
      let (r, m') = send_and_capture cmd m in
      elim r [
        | ok response ↦ (ok response, m')
        | err e ↦ if is_communication e then reconnect cmd m' else (err e, m')
      ]

  unfoldable pub write_all : ℕ → Method S (Unit {0})
  write_all mask = call_with_reconnect (writeall mask) >> pure tt

  unfoldable pub read_all : Method S ℕ
  read_all = call_with_reconnect readall >>= λ response.
      parsed (parse_readall_response response) >>= λ mask.
      modify (λ m. record m { last_known_mask = some mask }) >> pure mask

  unfoldable pub write : ℕ → Bool → Method S (Unit {0})
  write n state =
      validate_relay_number n >> call_with_reconnect (relay_write state (addr_str n)) >> pure tt

  unfoldable pub read_relay : ℕ → Method S Bool
  read_relay n =
      validate_relay_number n >> call_with_reconnect (relay_read (addr_str n)) >>= λ response.
      elim (parse_read_response response) [ some state ↦ pure state | none ↦ raise relay_error ]

  -- The failing branch of `verify_single` and `verify_all`.
  unfoldable pub stop_execution : Method S (Unit {0})
  stop_execution m =
      let (shutdown_ok, m') = emergency_all_off m in raise (state_verification_error shutdown_ok) m'

  unfoldable pub verify_single : ℕ → Bool → Method S (Unit {0})
  verify_single n expected = read_relay n >>= λ actual.
      if (actual && expected) || (not actual && not expected) then pure tt else stop_execution

  unfoldable pub verify_all : ℕ → Method S (Unit {0})
  verify_all expected_mask =
      read_all >>= λ mask. if mask == expected_mask then pure tt else stop_execution

  unfoldable pub check_current_relay_state : Matrix S → Option ℕ × Matrix S
  check_current_relay_state m =
      let (r, m') = read_all m in
      elim r [ ok mask ↦ (some mask, m') | err _ ↦ (none, record m' { last_known_mask = none }) ]

  unfoldable pub force_all_off_and_verify : Method S (Unit {0})
  force_all_off_and_verify m = (write_all 0 >> verify_all 0) (check_current_relay_state m).1

  unfoldable pub open_impl : ℕ → Method S (Unit {0})
  open_impl channel = validate_channel channel >> force_all_off_and_verify

  unfoldable pub close_impl : ℕ → Method S (Unit {0})
  close_impl channel =
      validate_channel channel
      >> force_all_off_and_verify
      >> write (channel - 1) true
      >> verify_single (channel - 1) true
      >> verify_all (2 ^ (channel - 1))

  -- `RelayBase.settle` with the delay `settle_s`, and the methods that end with it.
  unfoldable pub settle : ℕ → Method S (Unit {0})
  settle settle_s = if settle_s == 0 then raise validation_error else pure tt

  unfoldable pub open_channel : ℕ → ℕ → Method S (Unit {0})
  open_channel settle_s channel = open_impl channel >> settle settle_s

  unfoldable pub close_channel : ℕ → ℕ → Method S (Unit {0})
  close_channel settle_s channel = close_impl channel >> settle settle_s

  unfoldable pub open_all : Method S (Unit {0})
  open_all = force_all_off_and_verify

  abbrev pub close_all : Method S (Unit {0})
  close_all = raise relay_error

  unfoldable pub query : ℕ → Method S Bool
  query channel = validate_channel channel >> read_relay (channel - 1)
