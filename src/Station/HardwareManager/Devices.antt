-- ===== src/Station/HardwareManager/Devices.antt =====
-- test_control/hardware_manager.py: lists of devices, and which of them stay connected.
use nipxi.Prelude.{
  ◌≡◌, ◌↔◌, true, not, ◌&&◌, List, [], ◌∷◌, if◌then◌else◌, arith, Bool-cases, inl, inr,
}
use nipxi.Station.HardwareManager.{
  Device, same_device, among, Manager, disconnect_device, disconnect_each, without,
}

pub same_device_iff : (d e : Device) → (same_device d e ≡ true) ↔ (d ≡ e)
unfolding same_device
same_device_iff d e = ground arith

pub among-without :
    (d e : Device) (ds : List Device)
    → among d (without e ds) ≡ (among d ds && not (same_device e d))
among-without d e [] = ground arith
among-without d e (x ∷ ds) =
    ground
      (arith, among-without d e ds, same_device_iff d x, same_device_iff e x, same_device_iff e d)

among-disconnect_device :
    {S T : Type 0} (d e : Device) (m : Manager S T)
    → among d (if among e m.connected then disconnect_device e m else m).connected
      ≡ (among d m.connected && not (same_device e d))
among-disconnect_device d e m = elim (Bool-cases (among e m.connected)) [
  | inl yes_ ↦ rw yes_ (among-without d e m.connected)
  | inr no_ ↦ rw no_ (ground (arith, same_device_iff e d))
]

-- What stays connected.
pub among-disconnect_each :
    {S T : Type 0} (d : Device) (ds : List Device) (m : Manager S T)
    → among d (disconnect_each ds m).connected ≡ (among d m.connected && not (among d ds))
unfolding disconnect_each
among-disconnect_each d [] m = ground arith
among-disconnect_each d (e ∷ ds) m =
    let m' = if among e m.connected then disconnect_device e m else m in
    ground (
      arith,
      among-disconnect_each d ds m',
      among-disconnect_device d e m,
      same_device_iff e d,
      same_device_iff d e,
    )
