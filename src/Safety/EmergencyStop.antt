-- ===== src/Safety/EmergencyStop.antt =====
-- test_control/safety_monitor.py: `emergency_stop` and `safe_cancel_shutdown` on the two drivers.
use nipxi.Prelude.{ℕ, ◌≡◌, refl, ◌∙◌, Bool, true, false, not, Option, none, some, List, arith}
use nipxi.Prelude.Exec.{Result, ok, err, ◌>>=◌}
use nipxi.Hardware.Smu.{
  Session, Smu, Instrument, Register, Event, emergency_output_off, zero_output_setpoint_best_effort,
  zero_registers, zero_active, voltage_level, current_level, voltage_limit, apply_zero_setpoint,
}
use nipxi.Hardware.Smu.Shutdown.{IsOff, emergency_output_off-IsOff}
use nipxi.Hardware.Smu.Shutdown
use nipxi.Hardware.RelayEth.{Transport, Matrix, open_all}
use nipxi.Hardware.RelayEth.Safety.{open_channel-AllOff}
use nipxi.Hardware.RelayEth.Safety

-- What is left: whether a CRITICAL line says that a step failed, and the two drivers.
pub record Stopped (S T : Type 0) : Type 0 where
  pub output_critical : Bool
  pub relay_critical : Bool
  pub smu : Smu S
  pub relay_matrix : Matrix T

abbrev pub failed_call : {E A : Type 0} → Result E A → Bool
failed_call (ok _) = false
failed_call (err _) = true

module _ {S T : Type 0} (dev : Session S) (net : Transport T) where
  unfoldable pub emergency_stop : Smu S → Matrix T → Stopped S T
  emergency_stop smu relay_matrix =
      let (off, smu1) = emergency_output_off dev smu in
      let (opened, relays) = open_all net relay_matrix in
      let (_, smu2) = zero_output_setpoint_best_effort dev smu1 in
      record {
        output_critical = not off;
        relay_critical = failed_call opened;
        smu = smu2;
        relay_matrix = relays;
      }

  unfoldable pub safe_cancel_shutdown : Smu S → Matrix T → Stopped S T
  safe_cancel_shutdown smu relay_matrix =
      let (off, smu1) = emergency_output_off dev smu in
      let (opened, relays) = open_all net relay_matrix in
      let (_, smu2) = zero_output_setpoint_best_effort dev smu1 in
      record {
        output_critical = not off;
        relay_critical = failed_call opened;
        smu = smu2;
        relay_matrix = relays;
      }

  -- What NI-DCPower documents of the setpoint registers: using them leaves the output as it is.
  abbrev pub Keeps : {A : Type 0} → (S → Bool) → Instrument S A → Type 0
  Keeps output_on act = (s : S) → output_on (act s).1 ≡ output_on s

  pub record KeepsOutput (output_on : S → Bool) : Type 0 where
    pub is_dc_current : Keeps output_on dev.is_dc_current
    pub read : (r : Register) → Keeps output_on (dev.read r)
    pub write_zero : (r : Register) → Keeps output_on (dev.write_zero r)
    pub commit : Keeps output_on dev.commit

  Keeps-bind :
      {A B : Type 0} (output_on : S → Bool) (act : Instrument S A) (next : A → Instrument S B)
      → Keeps output_on act
      → ((a : A) → Keeps output_on (next a))
      → Keeps output_on (act >>= next)
  Keeps-bind {A = A} {B = B} output_on act next h k s = go (act s).0 (act s).1 (h s)
    where
      continue : Result (Unit {0}) A → S → Result (Unit {0}) B × S
      continue r s' = elim r [ ok a ↦ next a s' | err e ↦ (err e, s') ]

      go :
          (r : Result (Unit {0}) A) (s' : S)
          → output_on s' ≡ output_on s
          → output_on (continue r s').1 ≡ output_on s
      go (ok a) s' e = k a s' ∙ e
      go (err _) s' e = e

  module _ (output_on : S → Bool) (keeps : KeepsOutput output_on) where
    zero_active-Keeps : (dc_current : Bool) → Keeps output_on (zero_active dev dc_current)
    zero_active-Keeps true s0 =
        let s1 = (dev.read current_level s0).1 in
        let s2 = (dev.read voltage_limit s1).1 in
        let s3 = (dev.write_zero current_level s2).1 in
        let s4 = (dev.write_zero voltage_limit s3).1 in
        ground (
          arith,
          keeps.read current_level s0,
          keeps.read voltage_limit s1,
          keeps.write_zero current_level s2,
          keeps.write_zero voltage_limit s3,
          keeps.commit s4,
        )
    zero_active-Keeps false s0 =
        let s1 = (dev.read voltage_level s0).1 in
        let s2 = (dev.write_zero voltage_level s1).1 in
        ground
          (arith, keeps.read voltage_level s0, keeps.write_zero voltage_level s1, keeps.commit s2)

    zero_registers-Keeps : Keeps output_on (zero_registers dev)
    unfolding zero_registers
    zero_registers-Keeps =
        Keeps-bind output_on dev.is_dc_current (zero_active dev) keeps.is_dc_current
          zero_active-Keeps

    zero-IsOff :
        (o : Option S) (l : Option Bool) (es : List Event)
        → IsOff output_on o
        → IsOff output_on
            (zero_output_setpoint_best_effort dev
              record { session = o; last_known_output_state = l; events = es }).1.session
    unfolding apply_zero_setpoint
    zero-IsOff none l es h = tt
    zero-IsOff (some s) l es h = ground (arith, zero_registers-Keeps s)

    pub zero-Keeps :
        (smu : Smu S)
        → IsOff output_on smu.session
        → IsOff output_on (zero_output_setpoint_best_effort dev smu).1.session
    zero-Keeps smu = zero-IsOff smu.session smu.last_known_output_state smu.events

    -- When both readbacks are truthful and the setpoint registers leave the output as it is: unless
    -- `emergency_stop` logs that the output could not be verified off, it is off in the end; and
    -- unless it logs that opening the relays failed, all of them are off. `safe_cancel_shutdown` does
    -- the same.
    pub emergency_stop-IsSafe :
        (energized : T → ℕ)
        → Shutdown.IsTruthful dev output_on
        → Safety.IsTruthful net energized
        → (smu : Smu S) (relay_matrix : Matrix T)
        → ((emergency_stop smu relay_matrix).output_critical ≡ false
            → IsOff output_on (emergency_stop smu relay_matrix).smu.session)
          × ((emergency_stop smu relay_matrix).relay_critical ≡ false
              → energized (emergency_stop smu relay_matrix).relay_matrix.module_state ≡ 0)
          × (safe_cancel_shutdown smu relay_matrix ≡ emergency_stop smu relay_matrix)
    unfolding emergency_stop safe_cancel_shutdown
    emergency_stop-IsSafe energized smu_truthful net_truthful smu relay_matrix = (
      λ h. zero-Keeps _ (emergency_output_off-IsOff dev output_on smu_truthful smu (ground arith)),
      λ h. ground (arith, (open_channel-AllOff net energized net_truthful 1 1 relay_matrix).1),
      refl,
    )
