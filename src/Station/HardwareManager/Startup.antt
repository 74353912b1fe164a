-- ===== src/Station/HardwareManager/Startup.antt =====
-- test_control/hardware_manager.py: what a connection phase leaves.
use nipxi.Prelude.{
  ℕ, ◌≡◌, ◌⊎◌, unless, refl, Bool, true, false, ◌||◌, List, [], ◌∷◌, ◌++◌, any-append,
  if◌then◌else◌, arith,
}
use nipxi.Prelude.Exec.{Result, ok, err}
use nipxi.Hardware.Smu.{Session}
use nipxi.Hardware.Smu.Shutdown.{IsOff, emergency_output_off-IsOff}
use nipxi.Hardware.Smu.Shutdown
use nipxi.Hardware.RelayEth.{Transport}
use nipxi.Hardware.RelayEth.Safety.{open_channel-AllOff}
use nipxi.Hardware.RelayEth.Safety
use nipxi.Station.HardwareManager.Devices.{among-disconnect_each}
use nipxi.Station.HardwareManager.{
  Device, daq, ntc_daq, smu, dmm, relay, same_device, among, Equipment, Wiring, Manager,
  connect_device, check_output, check_relays, connect_in_order, connect_all_strict,
  connect_all_lenient, all_devices, reversed, when,
}

module _ {S T : Type 0} (dev : Session S) (net : Transport T) (kit : Equipment) (w : Wiring S T)
    (output_on : S → Bool) (energized : T → ℕ) (smu_truthful : Shutdown.IsTruthful dev output_on)
    (net_truthful : Safety.IsTruthful net energized) where
  pub check_output-IsOff :
      (m : Manager S T)
      → (check_output dev net kit w m).0 ≡ ok tt
      → IsOff output_on (check_output dev net kit w m).1.smu_driver.session
  unfolding check_output
  check_output-IsOff m h =
      ground (arith, emergency_output_off-IsOff dev output_on smu_truthful m.smu_driver)

  pub check_relays-AllOff :
      (m : Manager S T)
      → (check_relays dev net kit w m).0 ≡ ok tt
      → energized (check_relays dev net kit w m).1.relay_driver.module_state ≡ 0
  unfolding check_relays
  check_relays-AllOff m h =
      ground (arith, (open_channel-AllOff net energized net_truthful 1 1 m.relay_driver).1)

  -- Connecting another device than the SMU leaves the SMU alone.
  connect_device-smu_driver :
      (d : Device) (m : Manager S T)
      → same_device d smu ≡ false
      → (connect_device dev net kit w d m).1.smu_driver ≡ m.smu_driver
  unfolding connect_device same_device
  connect_device-smu_driver daq m h = ground arith
  connect_device-smu_driver ntc_daq m h = ground arith
  connect_device-smu_driver smu m h = ground arith
  connect_device-smu_driver dmm m h = ground arith
  connect_device-smu_driver relay m h = ground arith

  connect_device-connected :
      (d : Device) (m : Manager S T)
      → (connect_device dev net kit w d m).0 ≡ ok tt
      → (connect_device dev net kit w d m).1.connected ≡ m.connected ++ d ∷ []
  unfolding connect_device
  connect_device-connected daq m h = ground arith
  connect_device-connected ntc_daq m h = ground arith
  connect_device-connected smu m h = ground arith
  connect_device-connected dmm m h = ground arith
  connect_device-connected relay m h = ground arith

  same_device_lem : (same_device dmm smu ≡ false) × (same_device relay smu ≡ false)
  unfolding same_device
  same_device_lem = (refl, refl)

  check_output-connected :
      (m : Manager S T) → (check_output dev net kit w m).1.connected ≡ m.connected
  unfolding check_output
  check_output-connected m = ground arith

  check_relays-connected :
      (m : Manager S T)
      → ((check_relays dev net kit w m).1.connected ≡ m.connected)
        × ((check_relays dev net kit w m).1.smu_driver ≡ m.smu_driver)
  unfolding check_relays
  check_relays-connected m = ground arith

  among-reversed :
      (d : Device) (acc ds : List Device)
      → among d (reversed dev net kit w acc ds) ≡ (among d acc || among d ds)
  among-reversed d acc [] = ground arith
  among-reversed d acc (e ∷ ds) = ground (arith, among-reversed d (e ∷ acc) ds)

  connect_in_order_lem :
      (m : Manager S T)
      → m.connected ≡ []
      → (connect_in_order dev net kit w m).0 ≡ ok tt
      → let m' = (connect_in_order dev net kit w m).1 in
        IsOff output_on m'.smu_driver.session
        × (energized m'.relay_driver.module_state ≡ 0)
        × (m'.connected ≡ all_devices dev net kit w)
  unfolding connect_in_order
  connect_in_order_lem m empty h =
      let m1 = (connect_device dev net kit w daq m).1 in
      let m2 =
        (when dev net kit w kit.has_own_ntc_daq (connect_device dev net kit w ntc_daq) m1).1 in
      let m3 = (connect_device dev net kit w smu m2).1 in
      let m4 = (check_output dev net kit w m3).1 in
      let m5 = (when dev net kit w kit.has_dmm (connect_device dev net kit w dmm) m4).1 in
      let m6 = (connect_device dev net kit w relay m5).1 in
      (
        ground (
          arith,
          check_output-IsOff m3,
          connect_device-smu_driver dmm m4,
          connect_device-smu_driver relay m5,
          check_relays-connected m6,
          same_device_lem,
        ),
        ground (arith, check_relays-AllOff m6),
        ground (
          arith,
          connect_device-connected daq m,
          connect_device-connected ntc_daq m1,
          connect_device-connected smu m2,
          check_output-connected m3,
          connect_device-connected dmm m4,
          connect_device-connected relay m5,
          check_relays-connected m6,
        ),
      )

  among-connect_device :
      (x d : Device) (m : Manager S T)
      → among x (connect_device dev net kit w d m).1.connected ≡ true
      → (among x m.connected || same_device x d) ≡ true
  unfolding connect_device
  among-connect_device x daq m h = ground (arith, any-append (same_device x) m.connected (daq ∷ []))
  among-connect_device x ntc_daq m h =
      ground (arith, any-append (same_device x) m.connected (ntc_daq ∷ []))
  among-connect_device x smu m h = ground (arith, any-append (same_device x) m.connected (smu ∷ []))
  among-connect_device x dmm m h = ground (arith, any-append (same_device x) m.connected (dmm ∷ []))
  among-connect_device x relay m h =
      ground (arith, any-append (same_device x) m.connected (relay ∷ []))

  returned :
      (m : Manager S T)
      → m.connected ≡ []
      → let (r, m') = connect_all_strict dev net kit w m in
        r ≡ ok tt
        → IsOff output_on m'.smu_driver.session
          × (energized m'.relay_driver.module_state ≡ 0)
          × (m'.connected ≡ all_devices dev net kit w)
  unfolding connect_all_strict
  returned m empty h = ground (arith, connect_in_order_lem m empty)

  raised :
      (m : Manager S T)
      → m.connected ≡ []
      → let (r, m') = connect_all_strict dev net kit w m in
        r ≡ err tt → (d : Device) → among d m'.connected ≡ false
  unfolding connect_all_strict
  raised m empty h d =
      let reached = (connect_in_order dev net kit w m).1 in
      let rollback = reversed dev net kit w [] reached.connected in
      ground
        (arith, among-disconnect_each d rollback reached, among-reversed d [] reached.connected)

  lenient_returned :
      (m : Manager S T)
      → m.connected ≡ []
      → let (r, m') = connect_all_lenient dev net kit w m in
        r ≡ ok tt
        → (among smu m'.connected ≡ true → IsOff output_on m'.smu_driver.session)
          × (among relay m'.connected ≡ true → energized m'.relay_driver.module_state ≡ 0)
  unfolding connect_all_lenient
  lenient_returned m empty h =
      let m1 = (connect_device dev net kit w daq m).1 in
      let m2 = if kit.has_own_ntc_daq then (connect_device dev net kit w ntc_daq m1).1 else m1 in
      let m3 = (connect_device dev net kit w smu m2).1 in
      let m4 = if kit.has_dmm then (connect_device dev net kit w dmm m3).1 else m3 in
      let m5 = (connect_device dev net kit w relay m4).1 in
      let m6 = (if among smu m5.connected then check_output dev net kit w m5 else (ok tt, m5)).1 in
      (
        ground (arith, check_output-IsOff m5, check_output-connected m5, check_relays-connected m6),
        ground (arith, check_relays-AllOff m6, check_relays-connected m6),
      )

  lenient_raised :
      (m : Manager S T)
      → m.connected ≡ []
      → let (r, m') = connect_all_lenient dev net kit w m in
        r ≡ err tt → (d : Device) → among d m'.connected ≡ false
  unfolding connect_all_lenient
  lenient_raised m empty h d =
      let m1 = (connect_device dev net kit w daq m).1 in
      let m2 = if kit.has_own_ntc_daq then (connect_device dev net kit w ntc_daq m1).1 else m1 in
      let m3 = (connect_device dev net kit w smu m2).1 in
      let m4 = if kit.has_dmm then (connect_device dev net kit w dmm m3).1 else m3 in
      let m5 = (connect_device dev net kit w relay m4).1 in
      let m6 = (if among smu m5.connected then check_output dev net kit w m5 else (ok tt, m5)).1 in
      let m7 =
        (if among relay m6.connected then check_relays dev net kit w m6 else (ok tt, m6)).1 in
      let devices = all_devices dev net kit w in
      ground (
        arith,
        among-disconnect_each d devices m6,
        among-disconnect_each d devices m7,
        among-connect_device d daq m,
        among-connect_device d ntc_daq m1,
        among-connect_device d smu m2,
        among-connect_device d dmm m3,
        among-connect_device d relay m4,
        check_output-connected m5,
        check_relays-connected m6,
      )

  -- What a strict connection phase leaves, by how it ends.
  abbrev pub StrictPromise : Result (Unit {0}) (Unit {0}) → Manager S T → Type 0
  StrictPromise (ok _) m =
      IsOff output_on m.smu_driver.session
      × (energized m.relay_driver.module_state ≡ 0)
      × (m.connected ≡ all_devices dev net kit w)
  StrictPromise (err _) m = (d : Device) → among d m.connected ≡ false

  strict_cases :
      (r : Result (Unit {0}) (Unit {0})) (m : Manager S T)
      → (r ≡ ok tt → StrictPromise (ok tt) m)
      → (r ≡ err tt → StrictPromise (err tt) m)
      → StrictPromise r m
  strict_cases (ok tt) m h k = h refl
  strict_cases (err tt) m h k = k refl

  -- When the readbacks of the SMU and of the relay matrix are truthful: from nothing connected, a
  -- strict connection phase that returns has connected every device, with the output off and every
  -- relay off; one that raises leaves no device connected.
  pub connect_all_strict_lem :
      (m : Manager S T)
      → m.connected ≡ []
      → let (r, m') = connect_all_strict dev net kit w m in StrictPromise r m'
  connect_all_strict_lem m empty =
      let (r, m') = connect_all_strict dev net kit w m in
      strict_cases r m' (returned m empty) (raised m empty)

  -- What a lenient connection phase leaves, by how it ends.
  abbrev pub LenientPromise : Result (Unit {0}) (Unit {0}) → Manager S T → Type 0
  LenientPromise (ok _) m =
      ((among smu m.connected ≡ false) ⊎ IsOff output_on m.smu_driver.session)
      × ((among relay m.connected ≡ false) ⊎ (energized m.relay_driver.module_state ≡ 0))
  LenientPromise (err _) m = (d : Device) → among d m.connected ≡ false

  lenient_cases :
      (r : Result (Unit {0}) (Unit {0})) (m : Manager S T)
      → (r ≡ ok tt → LenientPromise (ok tt) m)
      → (r ≡ err tt → LenientPromise (err tt) m)
      → LenientPromise r m
  lenient_cases (ok tt) m h k = h refl
  lenient_cases (err tt) m h k = k refl

  -- When the readbacks are truthful: from nothing connected, a lenient connection phase that returns has the output off unless the SMU
  -- is not connected, and every relay off unless the relay matrix is not; one that raises leaves no
  -- device connected.
  pub connect_all_lenient_lem :
      (m : Manager S T)
      → m.connected ≡ []
      → let (r, m') = connect_all_lenient dev net kit w m in LenientPromise r m'
  connect_all_lenient_lem m empty =
      let (r, m') = connect_all_lenient dev net kit w m in
      lenient_cases r m'
        (λ h. (
          unless (among smu m'.connected) ((lenient_returned m empty h).0),
          unless (among relay m'.connected) ((lenient_returned m empty h).1),
        ))
        (lenient_raised m empty)
