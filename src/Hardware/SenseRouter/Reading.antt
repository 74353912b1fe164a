-- ===== src/Hardware/SenseRouter/Reading.antt =====
-- hardware/sense_router.py: what a reading through a sense channel leaves of its relay matrix.
use nipxi.Prelude.{
  ℕ, ◌≡◌, inl, inr, ◌≢◌, true, false, Option, none, some, [], ◌∷◌, lookup, insert, lookup-insert,
  ==_iff, nat_eq, arith,
}
use nipxi.Prelude.Exec.{Result, ok, err, Result-cases}
use nipxi.Hardware.RelayEth.{Transport, Matrix, Error, open_channel}
use nipxi.Hardware.RelayEth.Safety.{open_channel-AllOff}
use nipxi.Hardware.RelayEth.Safety
use nipxi.Hardware.SenseRouter.{
  MatrixName, Route, Routing, SenseError, measurement_error, Routers, channel_to_relay,
  router_for_matrix, on_channel, connect_sense, disconnect_sense, read_battery_voltage_via_sense,
}

-- The relay matrix is open, with no relay on.
abbrev pub IsIsolated : {T : Type 0} → (T → ℕ) → Option (Matrix T) → Type 0
IsIsolated energized none = true ≡ false
IsIsolated energized (some m) = energized m.module_state ≡ 0

-- A channel of the routing has its relay on the matrix of its route.
lookup-channel_to_relay :
    (channel : ℕ) (route : Route) (routing : Routing)
    → lookup channel routing ≡ some route
    → lookup channel (channel_to_relay route.relay_matrix routing) ≡ some route.relay
unfolding channel_to_relay
lookup-channel_to_relay channel route [] h = ground arith
lookup-channel_to_relay channel route ((c, r) ∷ routing) h =
    ground (arith, lookup-channel_to_relay channel route routing)

module _ {T : Type 0} (net : Transport T) (settle_s : ℕ) (routing : Routing)
    (created : MatrixName → Option (Result Error (Matrix T))) (energized : T → ℕ)
    (truthful : Safety.IsTruthful net energized) where
  -- The matrix after `open` is the one in the cache.
  is_open :
      (r : Result SenseError (Matrix T)) (opened : Routers T) (n : ℕ) (name : MatrixName)
      (m : Matrix T)
      → r ≡ ok m
      → (open_channel net settle_s n m).0 ≡ ok tt
      → IsIsolated energized (lookup name (insert name (open_channel net settle_s n m).1 opened))
  is_open r opened n name m e h =
      let m' = (open_channel net settle_s n m).1 in
      rw (lookup-insert name name m' opened) (
        ground
          (arith, (open_channel-AllOff net energized truthful settle_s n m).0, ==_iff name name))

  disconnect_sense-IsIsolated :
      (channel : ℕ) (route : Route) (routers : Routers T)
      → lookup channel routing ≡ some route
      → (disconnect_sense net settle_s routing created channel routers).0 ≡ ok tt
      → IsIsolated energized (
          lookup route.relay_matrix
            (disconnect_sense net settle_s routing created channel routers).1)
  unfolding on_channel
  disconnect_sense-IsIsolated channel route routers e h =
      let name = route.relay_matrix in
      let found = router_for_matrix net settle_s routing created name routers in
      let relay_of = lookup-channel_to_relay channel route routing e in
      elim (Result-cases found.0) [
        | inl (m, eq) ↦ ground (arith, relay_of, is_open found.0 found.1 route.relay name m eq)
        | inr (failure, eq) ↦ ground (arith, relay_of)
      ]

  connect_sense-ne-measured :
      (channel : ℕ) (routers : Routers T)
      → (connect_sense net settle_s routing created channel routers).0 ≢ err measurement_error
  unfolding on_channel router_for_matrix
  connect_sense-ne-measured channel routers h = ground arith

  disconnect_sense-ne-measured :
      (channel : ℕ) (routers : Routers T)
      → (disconnect_sense net settle_s routing created channel routers).0 ≢ err measurement_error
  unfolding on_channel router_for_matrix
  disconnect_sense-ne-measured channel routers h = ground arith

  -- What the DMM gives.
  abbrev pub reading : Option ℕ → Result SenseError ℕ
  reading none = err measurement_error
  reading (some v) = ok v

  -- When the readback is truthful and a call through a sense channel ends with what the DMM gives, a
  -- voltage or its failure, the relay matrix of the channel is open with every relay off.
  pub read_battery_voltage_via_sense-IsIsolated :
      (measured : Option ℕ) (channel : ℕ) (route : Route) (routers : Routers T)
      → lookup channel routing ≡ some route
      → let (r, routers') =
          read_battery_voltage_via_sense net settle_s routing created measured
            (some channel)
            routers in
        r ≡ reading measured → IsIsolated energized (lookup route.relay_matrix routers')
  unfolding read_battery_voltage_via_sense
  read_battery_voltage_via_sense-IsIsolated measured channel route routers e h =
      let connected = connect_sense net settle_s routing created channel routers in
      ground (
        arith,
        disconnect_sense-IsIsolated channel route connected.1 e,
        connect_sense-ne-measured channel routers,
        disconnect_sense-ne-measured channel connected.1,
      )
