-- ===== src/Hardware/Smu/Shutdown.antt =====
-- hardware/smu.py: what `True` from the shutdown methods promises about the instrument.
use nipxi.Prelude.{
  ℕ, zero, suc, ◌≡◌, refl, Bool, true, false, Option, none, some, List, [], ◌∷◌, any, arith,
}
use nipxi.Prelude.Exec.{ok}
use nipxi.Hardware.Smu.{
  Session, Smu, VerificationResult, disabled, still_enabled, verification_comm_failure, attempt,
  retry, emergency_output_off, force_output_off_and_verify, output_disable, max_attempts,
  verify_output_disabled, check_output_disabled_detailed, query_output_state, apply_zero_setpoint,
  pre_disable, off_requested, emit, Event,
}

-- What NI-DCPower documents of `output_enabled`: a value that is read is the state of the output.
abbrev pub IsTruthful : {S : Type 0} → Session S → (S → Bool) → Type 0
IsTruthful {S} dev output_on =
    (s : S) (b : Bool) → (dev.output_enabled s).0 ≡ ok b → output_on (dev.output_enabled s).1 ≡ b

-- No session, or the output is off.
abbrev pub IsOff : {S : Type 0} → (S → Bool) → Option S → Type 0
IsOff output_on none = Unit {0}
IsOff output_on (some s) = output_on s ≡ false

abbrev pub is_disabled : VerificationResult → Bool
is_disabled disabled = true
is_disabled still_enabled = false
is_disabled verification_comm_failure = false

abbrev smu_of : {S : Type 0} → Option S → Option Bool → List Event → Smu S
smu_of o l es = record { session = o; last_known_output_state = l; events = es }

module _ {S : Type 0} (dev : Session S) where
  -- What `n` attempts one after the other find.
  unfoldable pub verdicts : ℕ → Smu S → List VerificationResult
  unfolding attempt
  verdicts zero smu = []
  verdicts (suc n) smu = let (result, smu') = attempt dev smu in result ∷ verdicts n smu'

  retry-any :
      (n : ℕ) (last : VerificationResult) (smu : Smu S)
      → (retry dev n last smu).0 ≡ any is_disabled (verdicts n smu)
  unfolding retry verdicts
  retry-any zero last smu = refl
  retry-any (suc n) last smu =
      let next = (attempt dev smu).1 in
      ground (arith, retry-any n still_enabled next, retry-any n verification_comm_failure next)

  module _ (output_on : S → Bool) (truthful : IsTruthful dev output_on) where
    detailed-IsOff :
        (o : Option S) (l : Option Bool) (es : List Event)
        → (check_output_disabled_detailed dev (smu_of o l es)).0 ≡ disabled
        → IsOff output_on (check_output_disabled_detailed dev (smu_of o l es)).1.session
    unfolding check_output_disabled_detailed
    detailed-IsOff none l es h = tt
    detailed-IsOff (some s) l es h = ground (arith, truthful s true, truthful s false)

    attempt-IsOff :
        (smu : Smu S) → (attempt dev smu).0 ≡ disabled → IsOff output_on (attempt dev smu).1.session
    unfolding attempt
    attempt-IsOff smu h =
        let after = (output_disable dev smu).1 in
        ground (arith, detailed-IsOff after.session after.last_known_output_state after.events)

    retry-IsOff :
        (n : ℕ) (last : VerificationResult) (smu : Smu S)
        → (retry dev n last smu).0 ≡ true
        → IsOff output_on (retry dev n last smu).1.session
    unfolding retry
    retry-IsOff zero last smu h = ground arith
    retry-IsOff (suc n) last smu h =
        let next = (attempt dev smu).1 in
        ground (
          arith,
          attempt-IsOff smu,
          retry-IsOff n still_enabled next,
          retry-IsOff n verification_comm_failure next,
        )

    verify-IsOff :
        (o : Option S) (l : Option Bool) (es : List Event)
        → (verify_output_disabled dev (smu_of o l es)).0 ≡ true
        → IsOff output_on (verify_output_disabled dev (smu_of o l es)).1.session
    unfolding verify_output_disabled
    verify-IsOff none l es h = tt
    verify-IsOff (some s) l es h = ground (arith, truthful s true, truthful s false)

    -- When the readback is truthful and `emergency_output_off` returns True, there is no session or
    -- the output of the instrument is off.
    pub emergency_output_off-IsOff :
        (smu : Smu S)
        → (emergency_output_off dev smu).0 ≡ true
        → IsOff output_on (emergency_output_off dev smu).1.session
    unfolding emergency_output_off
    emergency_output_off-IsOff smu = retry-IsOff max_attempts verification_comm_failure _

    -- When the readback is truthful and `force_output_off_and_verify` returns True, there is no
    -- session or the output of the instrument is off, and the driver records it as off.
    pub force_output_off_and_verify-IsOff :
        (smu : Smu S)
        → (force_output_off_and_verify dev smu).0 ≡ true
        → IsOff output_on (force_output_off_and_verify dev smu).1.session
          × ((force_output_off_and_verify dev smu).1.last_known_output_state ≡ some false)
    unfolding force_output_off_and_verify
    force_output_off_and_verify-IsOff smu h =
        let forced = (output_disable dev (query_output_state dev smu).1).1 in
        ground (arith, verify-IsOff forced.session forced.last_known_output_state forced.events)

  -- `emergency_output_off` returns True exactly when one of the first three attempts, made one after
  -- the other once the setpoint has been set to zero, reads the output back as off.
  pub emergency_output_off-any :
      (smu : Smu S)
      → (emergency_output_off dev smu).0
        ≡ any is_disabled
            (verdicts 3 (apply_zero_setpoint dev pre_disable (emit (off_requested ∷ []) smu)).1)
  unfolding emergency_output_off
  emergency_output_off-any smu = retry-any max_attempts verification_comm_failure _
