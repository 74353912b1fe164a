-- ===== src/Station/SafetySweep.antt =====
-- test_control/safety_sweep.py: every configured SMU and relay matrix is made safe at startup. The
-- lists are the configured devices, each with how its `connect` comes out; the fault screen and its
-- records do not raise and are left out, and so is the `disconnect` of each `finally`, which closes the
-- connection of a device that has been made safe or reported, and whose exceptions are swallowed.
pub mod Verified
use nipxi.Prelude.{ℕ, Bool, true, false, Option, none, some, List, [], ◌∷◌, if◌then◌else◌}
use nipxi.Prelude.Exec.{Result, ok, err}
use nipxi.Orchestration.Workers.{Name}
use nipxi.Hardware.Smu.{Session, Smu, emergency_output_off}
use nipxi.Hardware.RelayEth.{Transport, Matrix, open_all}

pub record Configured (D : Type 0) : Type 0 where
  pub name : Name
  pub connects : Bool
  pub driver : D

module _ {S T : Type 0} (dev : Session S) (net : Transport T) where
  -- The loop over SMU_ASSIGNMENTS: the device that blocks the startup, and the SMUs it has reached.
  unfoldable pub sweep_smus : List (Configured (Smu S)) → Option Name × List (Smu S)
  sweep_smus [] = (none, [])
  sweep_smus (c ∷ cs) =
      let (off, smu) = emergency_output_off dev c.driver in
      let (blocked, swept) = sweep_smus cs in
      if c.connects
      then if off then (blocked, smu ∷ swept) else (some c.name, smu ∷ [])
      else (blocked, swept)

  -- The loop over NUMATO_RELAY_MATRIX_CONFIGS.
  unfoldable pub sweep_relays : List (Configured (Matrix T)) → Option Name × List (Matrix T)
  sweep_relays [] = (none, [])
  sweep_relays (c ∷ cs) =
      let (r, relay) = open_all net c.driver in
      let (blocked, swept) = sweep_relays cs in
      if c.connects
      then elim r [ ok _ ↦ (blocked, relay ∷ swept) | err _ ↦ (some c.name, relay ∷ []) ]
      else (blocked, swept)

  -- What `SafetyFaultBlocked` names, if it is raised, and the drivers that the sweep has reached.
  unfoldable pub run_startup_safety_sweep :
      List (Configured (Smu S))
      → List (Configured (Matrix T))
      → Option Name × List (Smu S) × List (Matrix T)
  run_startup_safety_sweep smus relays =
      let (blocked, swept_smus) = sweep_smus smus in
      let (blocked', swept_relays) = sweep_relays relays in
      elim blocked [
        | some name ↦ (some name, swept_smus, [])
        | none ↦ (blocked', swept_smus, swept_relays)
      ]
