-- ===== src/Hardware/Smu/PointSource/Ends.antt =====
-- hardware/smu.py: how `source_dc_voltage_point` leaves the output, whichever way it ends.
use nipxi.Prelude.{◌≡◌, refl, Bool, true, false, Option, none, some, List, arith}
use nipxi.Prelude.Exec.{Result, ok, err, ◌>>=◌, ◌>>◌}
use nipxi.Prelude.Int.{ℤ}
use nipxi.Hardware.Smu.{
  Session, Smu, Event, force_output_off_and_verify, output_disable, verify_output_disabled,
}
use nipxi.Hardware.Smu.Shutdown.{IsOff}
use nipxi.Hardware.Smu.Sourcing.{
  SmuError, smu_error, smu_state_verification_error, operation_cancelled, driver_error, Controls,
  is_mismatch, on_session, safe_baseline,
}
use nipxi.Hardware.Smu.Sourcing.Modes.{IsConfirmed, is_mismatch-IsConfirmed}
use nipxi.Hardware.Smu.PointSource.{
  SourcedPoint, configure_point, reraised, refuse_compliance, source_and_measure,
  source_then_disable, source_dc_voltage_point,
}

-- What NI-DCPower documents of disabling: when it does not raise, the output is off; and that reading
-- `output_enabled` leaves it as it is.
pub record DisablesOutput {S : Type 0} (dev : Session S) (output_on : S → Bool) : Type 0 where
  pub disable : (s : S) → (dev.disable s).0 ≡ ok tt → output_on (dev.disable s).1 ≡ false
  pub output_enabled : (s : S) → output_on (dev.output_enabled s).1 ≡ output_on s

-- After any end but an SMUError the output is off; a point that is returned was confirmed, with the
-- output on, and is not in compliance. Nothing else is raised.
abbrev pub IsEnded :
    {S D : Type 0} (output_on : S → Bool) (voltage_v current_limit_a : ℤ)
    → Result SmuError (SourcedPoint D)
    → Option S
    → Type 0
IsEnded output_on v i (ok p) session =
    IsOff output_on session
    × IsConfirmed v p.readback_v
    × IsConfirmed i p.readback_current_limit_a
    × (p.output_enabled_readback ≡ true)
    × (p.in_compliance ≡ false)
IsEnded output_on v i (err smu_error) session = Unit {0}
IsEnded output_on v i (err smu_state_verification_error) session = IsOff output_on session
IsEnded output_on v i (err operation_cancelled) session = IsOff output_on session
IsEnded output_on v i (err driver_error) session = true ≡ false

abbrev AreConfirmed : {D : Type 0} (v i : ℤ) → Result SmuError (SourcedPoint D) → Type 0
AreConfirmed v i (ok p) =
    IsConfirmed v p.readback_v
    × IsConfirmed i p.readback_current_limit_a
    × (p.output_enabled_readback ≡ true)
AreConfirmed v i (err _) = Unit {0}

-- `IsEnded` before the test of compliance.
abbrev IsSourced :
    {S D : Type 0} (output_on : S → Bool) (v i : ℤ)
    → Result SmuError (SourcedPoint D)
    → Option S
    → Type 0
IsSourced output_on v i (ok p) session = IsOff output_on session × AreConfirmed v i (ok p)
IsSourced output_on v i (err smu_error) session = Unit {0}
IsSourced output_on v i (err smu_state_verification_error) session = IsOff output_on session
IsSourced output_on v i (err operation_cancelled) session = IsOff output_on session
IsSourced output_on v i (err driver_error) session = true ≡ false

module _ {S D : Type 0} (dev : Session S) (ctl : Controls S) (v i range : ℤ)
    (held : Option (Result SmuError D)) (cancelled : Bool) where
  source_and_measure-confirmed :
      (smu : Smu S) (p : SourcedPoint D)
      → (source_and_measure dev ctl v i range held cancelled smu).0 ≡ ok p
      → (is_mismatch v p.readback_v ≡ false)
        × (is_mismatch i p.readback_current_limit_a ≡ false)
        × (p.output_enabled_readback ≡ true)
  unfolding source_and_measure
  source_and_measure-confirmed smu p h = ground arith

  confirmed :
      (p : SourcedPoint D)
      → (is_mismatch v p.readback_v ≡ false)
        × (is_mismatch i p.readback_current_limit_a ≡ false)
        × (p.output_enabled_readback ≡ true)
      → AreConfirmed v i (ok p)
  confirmed p h = (
    is_mismatch-IsConfirmed v p.readback_v h.0,
    is_mismatch-IsConfirmed i p.readback_current_limit_a h.1,
    h.2,
  )

  source_and_measure-AreConfirmed :
      (smu : Smu S) → AreConfirmed v i (source_and_measure dev ctl v i range held cancelled smu).0
  source_and_measure-AreConfirmed smu = go _ (source_and_measure-confirmed smu)
    where
      go :
          (r : Result SmuError (SourcedPoint D))
          → ((p : SourcedPoint D)
              → r ≡ ok p
              → (is_mismatch v p.readback_v ≡ false)
                × (is_mismatch i p.readback_current_limit_a ≡ false)
                × (p.output_enabled_readback ≡ true))
          → AreConfirmed v i r
      go (ok p) h = confirmed p (h p refl)
      go (err e) h = tt

  module _ (output_on : S → Bool) (disables : DisablesOutput dev output_on) where
    output_disable-IsOff :
        (o : Option S) (l : Option Bool) (es : List Event)
        → let (r, smu) =
            output_disable dev record { session = o; last_known_output_state = l; events = es } in
          r ≡ ok tt → IsOff output_on smu.session
    unfolding output_disable
    output_disable-IsOff none l es h = tt
    output_disable-IsOff (some s) l es h = disables.disable (dev.abort s).1 h

    verify_output_disabled-IsOff :
        (o : Option S) (l : Option Bool) (es : List Event)
        → IsOff output_on o
        → IsOff output_on
            (verify_output_disabled dev
              record { session = o; last_known_output_state = l; events = es }).1.session
    unfolding verify_output_disabled
    verify_output_disabled-IsOff none l es off = tt
    verify_output_disabled-IsOff (some s) l es off = ground (arith, disables.output_enabled s)

    reraised-IsSourced :
        (r : Result SmuError (SourcedPoint D)) (session : Option S)
        → IsOff output_on session
        → AreConfirmed v i r
        → IsSourced output_on v i (reraised dev ctl v i range held cancelled r) session
    reraised-IsSourced (ok p) session off h = (off, h)
    reraised-IsSourced (err smu_error) session off h = tt
    reraised-IsSourced (err smu_state_verification_error) session off h = off
    reraised-IsSourced (err operation_cancelled) session off h = off
    reraised-IsSourced (err driver_error) session off h = tt

    source_then_disable-IsSourced :
        (smu : Smu S)
        → let (r, smu') = source_then_disable dev ctl v i range held cancelled smu in
          IsSourced output_on v i r smu'.session
    unfolding source_then_disable
    source_then_disable-IsSourced smu =
        let (r, sourced) = source_and_measure dev ctl v i range held cancelled smu in
        let after = (output_disable dev sourced).1 in
        ground (
          arith,
          source_and_measure-AreConfirmed smu,
          output_disable-IsOff sourced.session sourced.last_known_output_state sourced.events,
          verify_output_disabled-IsOff after.session after.last_known_output_state after.events,
          reraised-IsSourced r (verify_output_disabled dev after).1.session,
        )

    refuse_compliance-IsEnded :
        (p : SourcedPoint D) (smu : Smu S)
        → IsOff output_on smu.session × AreConfirmed v i (ok p)
        → let (r, smu') = refuse_compliance dev ctl v i range held cancelled p smu in
          IsEnded output_on v i r smu'.session
    refuse_compliance-IsEnded p smu h = ground arith

    judge :
        (r : Result SmuError (SourcedPoint D)) (smu : Smu S)
        → IsSourced output_on v i r smu.session
        → let (r', smu') =
            ((λ m. (r, m)) >>= refuse_compliance dev ctl v i range held cancelled) smu in
          IsEnded output_on v i r' smu'.session
    judge (ok p) smu h = refuse_compliance-IsEnded p smu h
    judge (err smu_error) smu h = tt
    judge (err smu_state_verification_error) smu h = h
    judge (err operation_cancelled) smu h = h
    judge (err driver_error) smu h = h

    configured-IsSourced :
        (smu : Smu S)
        → let (r, smu') =
            (on_session smu_error (configure_point dev ctl v i range held cancelled)
                >> source_then_disable dev ctl v i range held cancelled)
              smu in
          IsSourced output_on v i r smu'.session
    unfolding on_session
    configured-IsSourced smu =
        let configured =
          on_session smu_error (configure_point dev ctl v i range held cancelled) smu in
        ground (arith, source_then_disable-IsSourced configured.1)

    configured-IsEnded :
        (smu : Smu S)
        → let (r, smu') =
            (on_session smu_error (configure_point dev ctl v i range held cancelled)
                >> source_then_disable dev ctl v i range held cancelled
                >>= refuse_compliance dev ctl v i range held cancelled)
              smu in
          IsEnded output_on v i r smu'.session
    configured-IsEnded smu =
        let (r, sourced) =
          (on_session smu_error (configure_point dev ctl v i range held cancelled)
              >> source_then_disable dev ctl v i range held cancelled)
            smu in
        judge r sourced (configured-IsSourced smu)

    -- When a disable command that does not raise turns the output off, and reading its state leaves it
    -- as it is, `source_dc_voltage_point` ends by an SMUError; by a verification error or a
    -- cancellation, with the output off; or by returning a point, with the output off, whose voltage
    -- and current limit were read back within the tolerance or as NaN, whose output was read back as
    -- on, and which is not in compliance.
    pub source_dc_voltage_point-IsEnded :
        (smu : Smu S)
        → let (r, smu') = source_dc_voltage_point dev ctl v i range held cancelled smu in
          IsEnded output_on v i r smu'.session
    unfolding source_dc_voltage_point safe_baseline
    source_dc_voltage_point-IsEnded smu =
        ground (arith, configured-IsEnded (force_output_off_and_verify dev smu).1)
