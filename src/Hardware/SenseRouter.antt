-- ===== src/Hardware/SenseRouter.antt =====
-- hardware/sense_router.py: the sense channels, on relay matrices that are opened when first used.
pub mod Reading
use nipxi.Prelude.{
  ℕ, Bool, true, false, Option, none, some, List, [], ◌∷◌, Dict, lookup, insert, if◌then◌else◌,
  ◌==◌, nat_eq,
}
use nipxi.Prelude.Exec.{Result, ok, err, Action}
use nipxi.Hardware.RelayEth.{Transport, Matrix, Error, open_channel, close_channel}

abbrev pub MatrixName : Type 0
MatrixName = ℕ

-- An entry of SENSE_ROUTING.
pub record Route : Type 0 where
  pub relay_matrix : MatrixName
  pub relay : ℕ

abbrev pub Routing : Type 0
Routing = Dict ℕ Route

pub data SenseError : Type 0 where
  configuration_error measurement_error : SenseError
  relay_failed : Error → SenseError

-- `_routers_by_matrix`, with the driver of each router.
abbrev pub Routers : Type 0 → Type 0
Routers T = Dict MatrixName (Matrix T)

-- The dict `channel_to_relay` of one matrix.
unfoldable pub channel_to_relay : MatrixName → Routing → Dict ℕ ℕ
channel_to_relay name [] = []
channel_to_relay name ((channel, route) ∷ routing) =
    let rest = channel_to_relay name routing in
    if route.relay_matrix == name then (channel, route.relay) ∷ rest else rest

-- `relay_matrix_configs.get(name)`, and how creating and connecting the driver comes out.
module _ {T : Type 0} (net : Transport T) (settle_s : ℕ) (routing : Routing)
    (created : MatrixName → Option (Result Error (Matrix T))) where
  abbrev pub Call : Type 0 → Type 0
  Call A = Action SenseError (Routers T) A

  unfoldable pub router_for_matrix : MatrixName → Call (Matrix T)
  router_for_matrix name routers = elim (lookup name routers) [
    | some m ↦ (ok m, routers)
    | none ↦ elim (created name) [
      | none ↦ (err configuration_error, routers)
      | some (err e) ↦ (err (relay_failed e), routers)
      | some (ok m) ↦ (ok m, insert name m routers)
    ]
  ]

  -- A method of the driver on the relay that `_resolve` gives for the channel.
  unfoldable pub on_channel :
      (ℕ → Matrix T → Result Error (Unit {0}) × Matrix T) → ℕ → Call (Unit {0})
  on_channel method channel routers = elim (lookup channel routing) [
    | none ↦ (err configuration_error, routers)
    | some route ↦
        let name = route.relay_matrix in
        let (found, opened) = router_for_matrix name routers in
        elim found [
          | err e ↦ (err e, opened)
          | ok m ↦ elim (lookup channel (channel_to_relay name routing)) [
            | none ↦ (err configuration_error, opened)
            | some n ↦
                let (r, m') = method n m in
                let called = insert name m' opened in
                elim r [ ok _ ↦ (ok tt, called) | err e ↦ (err (relay_failed e), called) ]
          ]
        ]
  ]

  abbrev pub connect_sense : ℕ → Call (Unit {0})
  connect_sense = on_channel (close_channel net settle_s)

  abbrev pub disconnect_sense : ℕ → Call (Unit {0})
  disconnect_sense = on_channel (open_channel net settle_s)

  -- `read_battery_voltage_via_sense`, with what the DMM measures, unless it raises.
  unfoldable pub read_battery_voltage_via_sense : {V : Type 0} → Option V → Option ℕ → Call V
  read_battery_voltage_via_sense measured none routers = elim measured [
    | none ↦ (err measurement_error, routers)
    | some v ↦ (ok v, routers)
  ]
  read_battery_voltage_via_sense measured (some channel) routers =
      let (connected, routers') = connect_sense channel routers in
      let (disconnected, routers'') = disconnect_sense channel routers' in
      elim connected [
        | err e ↦ (err e, routers')
        | ok _ ↦ elim disconnected [
          | err e ↦ (err e, routers'')
          | ok _ ↦ elim measured [
            | none ↦ (err measurement_error, routers'')
            | some v ↦ (ok v, routers'')
          ]
        ]
      ]
