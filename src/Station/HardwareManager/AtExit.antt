-- ===== src/Station/HardwareManager/AtExit.antt =====
-- test_control/hardware_manager.py: the handlers that `__init__` registers with `atexit`, and
-- `health_check`. An outcome is false where the handler logs CRITICAL.
pub mod SafetyNet
use nipxi.Prelude.{ℕ, ◌≡◌, Bool, true, false, not, ◌&&◌, ◌||◌, List, [], ◌∷◌, ◌++◌, arith}
use nipxi.Prelude.Exec.{ok, err}
use nipxi.Hardware.Smu.{Session}
use nipxi.Hardware.RelayEth.{Transport}
use nipxi.Station.HardwareManager.{
  Device, daq, ntc_daq, smu, dmm, relay, among, optional, Equipment, Wiring, Manager, check_output,
  check_relays, when,
}

-- An entry of the dictionary of `health_check`; the two details there are say the same as `ok`.
record Health : Type 0 where
  device : Device
  is_ok : Bool

-- The devices in the order of `health_check`; a device stands for its name, as no two have the same.
unfoldable health_check : {S T : Type 0} → Equipment → Manager S T → List Health
health_check kit m =
    report (smu ∷ daq ∷ relay ∷ optional kit.has_dmm dmm ++ optional kit.has_own_ntc_daq ntc_daq)
  where
    report : List Device → List Health
    report [] = []
    report (d ∷ ds) = record { device = d; is_ok = among d m.connected } ∷ report ds

abbrev all_ok : List Health → Bool
all_ok [] = true
all_ok (h ∷ hs) = h.is_ok && all_ok hs

-- Every entry is ok just when every device that the manager has is connected.
health_check-all_ok :
    {S T : Type 0} (kit : Equipment) (m : Manager S T)
    → all_ok (health_check kit m) ≡ (
        among smu m.connected
        && among daq m.connected
        && among relay m.connected
        && (not kit.has_dmm || among dmm m.connected)
        && (not kit.has_own_ntc_daq || among ntc_daq m.connected))
unfolding health_check
health_check-all_ok kit m = ground arith

module _ {S T : Type 0} (dev : Session S) (net : Transport T) (kit : Equipment)
    (w : Wiring S T) where
  unfoldable pub atexit_relay_shutdown : Manager S T → Bool × Manager S T
  atexit_relay_shutdown m =
      let (r, m') = when dev net kit w (among relay m.connected) (check_relays dev net kit w) m in
      (elim r [ ok _ ↦ true | err _ ↦ false ], m')

  unfoldable pub atexit_smu_shutdown : Manager S T → Bool × Manager S T
  atexit_smu_shutdown m =
      let (r, m') = when dev net kit w (among smu m.connected) (check_output dev net kit w) m in
      (elim r [ ok _ ↦ true | err _ ↦ false ], m')

  -- The interpreter runs the handlers in the reverse of the order in which they were registered.
  unfoldable pub at_exit : Manager S T → (Bool × Bool) × Manager S T
  at_exit m =
      let (off, m1) = atexit_smu_shutdown m in
      let (opened, m2) = atexit_relay_shutdown m1 in ((off, opened), m2)
