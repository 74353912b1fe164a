-- ===== src/Station/SafetySweep/Verified.antt =====
-- test_control/safety_sweep.py: what a sweep that returns has verified.
use nipxi.Prelude.{ℕ, suc, ◌≡◌, refl, Bool, none, List, [], ◌∷◌, length, All, arith, if◌then◌else◌}
use nipxi.Hardware.Smu.{Session, Smu}
use nipxi.Hardware.Smu.Shutdown.{IsOff, emergency_output_off-IsOff}
use nipxi.Hardware.Smu.Shutdown
use nipxi.Hardware.RelayEth.{Transport, Matrix}
use nipxi.Hardware.RelayEth.Safety.{open_channel-AllOff}
use nipxi.Hardware.RelayEth.Safety
use nipxi.Station.SafetySweep.{Configured, sweep_smus, sweep_relays, run_startup_safety_sweep}

-- How many of the devices connect.
abbrev pub reachable : {D : Type 0} → List (Configured D) → ℕ
reachable [] = 0
reachable (c ∷ cs) = let rest = reachable cs in if c.connects then suc rest else rest

module _ {S T : Type 0} (dev : Session S) (net : Transport T) (output_on : S → Bool)
    (energized : T → ℕ) (smu_truthful : Shutdown.IsTruthful dev output_on)
    (net_truthful : Safety.IsTruthful net energized) where
  abbrev pub SmuIsOff : Smu S → Type 0
  SmuIsOff smu = IsOff output_on smu.session

  abbrev pub MatrixIsOff : Matrix T → Type 0
  MatrixIsOff m = energized m.module_state ≡ 0

  sweep_smus-IsOff :
      (cs : List (Configured (Smu S)))
      → (sweep_smus dev net cs).0 ≡ none
      → All SmuIsOff (sweep_smus dev net cs).1 × (length (sweep_smus dev net cs).1 ≡ reachable cs)
  unfolding sweep_smus
  sweep_smus-IsOff [] h = (tt, refl)
  sweep_smus-IsOff (c ∷ cs) h =
      ground
        (arith, emergency_output_off-IsOff dev output_on smu_truthful c.driver, sweep_smus-IsOff cs)

  sweep_relays-IsOff :
      (cs : List (Configured (Matrix T)))
      → (sweep_relays dev net cs).0 ≡ none
      → All MatrixIsOff (sweep_relays dev net cs).1
        × (length (sweep_relays dev net cs).1 ≡ reachable cs)
  unfolding sweep_relays
  sweep_relays-IsOff [] h = (tt, refl)
  sweep_relays-IsOff (c ∷ cs) h = ground (
    arith,
    (open_channel-AllOff net energized net_truthful 1 1 c.driver).1,
    sweep_relays-IsOff cs,
  )

  -- When the readbacks are truthful and the sweep does not raise, it has reached every SMU and every
  -- relay matrix that connects, with the output of each and all relays of each off.
  pub run_startup_safety_sweep_lem :
      (smus : List (Configured (Smu S))) (relays : List (Configured (Matrix T)))
      → let swept = run_startup_safety_sweep dev net smus relays in
        swept.0 ≡ none
        → All SmuIsOff swept.1
          × (length swept.1 ≡ reachable smus)
          × All MatrixIsOff swept.2
          × (length swept.2 ≡ reachable relays)
  unfolding run_startup_safety_sweep
  run_startup_safety_sweep_lem smus relays h =
      ground (arith, sweep_smus-IsOff smus, sweep_relays-IsOff relays)
