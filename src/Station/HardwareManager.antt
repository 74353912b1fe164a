-- ===== src/Station/HardwareManager.antt =====
-- test_control/hardware_manager.py: connecting all devices with a verified start, and disconnecting
-- them in the safe order. The SMU and the relay matrix are the modelled drivers; how the calls of
-- `connect` come out is a parameter. What a `disconnect` raises is swallowed everywhere.
pub mod AtExit
pub mod Devices
pub mod Startup
pub mod Teardown
use nipxi.Prelude.{
  ℕ, ◌≡◌, Bool, true, false, not, ◌&&◌, List, [], ◌∷◌, ◌++◌, keep, any, if◌then◌else◌, ◌==◌,
}
use nipxi.Prelude.Exec.{Result, ok, err, Action, pure, raise, ◌>>=◌, ◌>>◌}
use nipxi.Hardware.Smu.{Session, Smu, emergency_output_off, zero_output_setpoint_best_effort}
use nipxi.Hardware.RelayEth.{Transport, Matrix, open_all}

pub data Device : Type 0 where
  daq ntc_daq smu dmm relay : Device

abbrev pub number : Device → ℕ
number daq = 0
number ntc_daq = 1
number smu = 2
number dmm = 3
number relay = 4

unfoldable pub same_device : Device → Device → Bool
same_device a b = number a == number b

-- `dev in devices`
abbrev pub among : Device → List Device → Bool
among d ds = any (same_device d) ds

-- The devices that the manager has: it may lack a DMM, and its NTC DAQ may be its DAQ or none.
pub record Equipment : Type 0 where
  pub has_dmm : Bool
  pub has_own_ntc_daq : Bool

-- How the calls of `connect` come out: the Boolean says that the call did not raise.
pub record Wiring (S T : Type 0) : Type 0 where
  pub connects : Device → Bool
  pub smu_connect : Smu S → Bool × Smu S
  pub relay_connect : Matrix T → Bool × Matrix T

-- The drivers, the devices with `connected` true, and those on which `disconnect` was called.
pub record Manager (S T : Type 0) : Type 0 where
  pub smu_driver : Smu S
  pub relay_driver : Matrix T
  pub connected : List Device
  pub disconnects : List Device

abbrev pub Call : Type 0 → Type 0 → Type 0
Call S T = Action (Unit {0}) (Manager S T) (Unit {0})

abbrev pub without : Device → List Device → List Device
without d ds = keep (λ e. not (same_device d e)) ds

-- `dev.disconnect()`; the driver keeps the instrument's last state, of which the closed session knows
-- nothing more.
abbrev pub disconnect_device : {S T : Type 0} → Device → Manager S T → Manager S T
disconnect_device d m = record m {
  connected = without d m.connected;
  disconnects = m.disconnects ++ d ∷ [];
}

-- `for dev in devices: if dev.connected: dev.disconnect()`
unfoldable pub disconnect_each : {S T : Type 0} → List Device → Manager S T → Manager S T
disconnect_each [] m = m
disconnect_each (d ∷ ds) m =
    disconnect_each ds (if among d m.connected then disconnect_device d m else m)

abbrev pub optional : Bool → Device → List Device
optional true d = d ∷ []
optional false d = []

module _ {S T : Type 0} (dev : Session S) (net : Transport T) (kit : Equipment)
    (w : Wiring S T) where
  abbrev pub marked : Device → Manager S T → Manager S T
  marked d m = record m { connected = m.connected ++ d ∷ [] }

  -- `connect` and what follows it when it does not raise.
  unfoldable pub connect_device : Device → Call S T
  connect_device daq m = if w.connects daq then pure tt (marked daq m) else raise tt m
  connect_device ntc_daq m = if w.connects ntc_daq then pure tt (marked ntc_daq m) else raise tt m
  connect_device dmm m = if w.connects dmm then pure tt (marked dmm m) else raise tt m
  connect_device smu m =
      let (fine, driver) = w.smu_connect m.smu_driver in
      let m' = record m { smu_driver = driver } in
      if fine then pure tt (marked smu m') else raise tt m'
  connect_device relay m =
      let (fine, driver) = w.relay_connect m.relay_driver in
      let m' = record m { relay_driver = driver } in
      if fine then pure tt (marked relay m') else raise tt m'

  -- `if ... is not None`
  abbrev pub when : Bool → Call S T → Call S T
  when b act m = if b then act m else pure tt m

  unfoldable pub check_output : Call S T
  check_output m =
      let (off, driver) = emergency_output_off dev m.smu_driver in
      let m' = record m { smu_driver = driver } in if off then pure tt m' else raise tt m'

  unfoldable pub check_relays : Call S T
  check_relays m =
      let (r, driver) = open_all net m.relay_driver in
      let m' = record m { relay_driver = driver } in
      elim r [ ok _ ↦ (ok tt, m') | err _ ↦ (err tt, m') ]

  -- The `try` of `_connect_all_strict`.
  unfoldable pub connect_in_order : Call S T
  connect_in_order =
      connect_device daq
      >> when kit.has_own_ntc_daq (connect_device ntc_daq)
      >> connect_device smu
      >> check_output
      >> when kit.has_dmm (connect_device dmm)
      >> connect_device relay
      >> check_relays

  -- The list `connected`, backwards.
  abbrev pub reversed : List Device → List Device → List Device
  reversed acc [] = acc
  reversed acc (d ∷ ds) = reversed (d ∷ acc) ds

  -- `_connect_all_strict` of a manager with nothing connected.
  unfoldable pub connect_all_strict : Call S T
  connect_all_strict m =
      let (r, m') = connect_in_order m in
      elim r [
        | ok _ ↦ (ok tt, m')
        | err _ ↦ (err tt, disconnect_each (reversed [] m'.connected) m')
      ]

  -- `_try_connect`
  abbrev pub try_connect : Device → Manager S T → Manager S T
  try_connect d m = (connect_device d m).1

  abbrev pub all_devices : List Device
  all_devices =
      daq ∷ optional kit.has_own_ntc_daq ntc_daq ++ smu ∷ optional kit.has_dmm dmm ++ relay ∷ []

  -- `_connect_all_lenient`
  unfoldable pub connect_all_lenient : Call S T
  connect_all_lenient m =
      let m1 = try_connect daq m in
      let m2 = if kit.has_own_ntc_daq then try_connect ntc_daq m1 else m1 in
      let m3 = try_connect smu m2 in
      let m4 = if kit.has_dmm then try_connect dmm m3 else m3 in
      let m5 = try_connect relay m4 in
      let (output, m6) = if among smu m5.connected then check_output m5 else pure tt m5 in
      elim output [
        | err _ ↦ (err tt, disconnect_each all_devices m6)
        | ok _ ↦
            let (relays, m7) = if among relay m6.connected then check_relays m6 else pure tt m6 in
            elim relays [ err _ ↦ (err tt, disconnect_each all_devices m7) | ok _ ↦ (ok tt, m7) ]
      ]

  -- What `disconnect_all` does before it disconnects anything: whether the output and the relays are
  -- not reported as a safety fault, and the manager that is left.
  unfoldable pub make_safe : Manager S T → (Bool × Bool) × Manager S T
  make_safe m =
      let has_smu = among smu m.connected in
      let (output, m1) = if has_smu then check_output m else pure tt m in
      let safe : Bool = elim output [ ok _ ↦ true | err _ ↦ false ] in
      let (relays, m2) = if among relay m.connected then check_relays m1 else pure tt m1 in
      let opened : Bool = elim relays [ ok _ ↦ true | err _ ↦ false ] in
      let zeroed = (zero_output_setpoint_best_effort dev m2.smu_driver).1 in
      ((safe, opened), if has_smu then record m2 { smu_driver = zeroed } else m2)

  -- The list `devices`.
  abbrev pub to_disconnect : Bool → List Device
  to_disconnect safe =
      relay ∷ optional kit.has_dmm dmm
      ++ optional safe smu
      ++ daq ∷ optional kit.has_own_ntc_daq ntc_daq

  unfoldable pub disconnect_all : Manager S T → (Bool × Bool) × Manager S T
  disconnect_all m =
      let (outcome, m') = make_safe m in (outcome, disconnect_each (to_disconnect outcome.0) m')
