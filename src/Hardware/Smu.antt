-- ===== src/Hardware/Smu.antt =====
-- hardware/smu.py: reaching a verified-off output. The nidcpower session is a parameter: what each
-- call on it does to the instrument's state `S`, and whether it raises.
pub mod Shutdown
pub mod Sourcing
pub mod PointSource
use nipxi.Prelude.{
  ℕ, zero, suc, Bool, true, false, not, Option, none, some, List, [], ◌∷◌, ◌++◌, map, if◌then◌else◌,
}
use nipxi.Prelude.Exec.{Result, ok, err, Action, pure, ◌>>=◌, ◌>>◌}

-- OutputVerificationResult
pub data VerificationResult : Type 0 where
  disabled still_enabled verification_comm_failure : VerificationResult

pub data Register : Type 0 where
  current_level voltage_limit voltage_level : Register

pub data Stage : Type 0 where
  pre_disable post_isolation : Stage

-- The messages given to `on_event`, less the numbers in them; what that call raises is swallowed.
pub data Event : Type 0 where
  off_requested : Event
  zeroed : Stage → Register → Event
  verified : VerificationResult → Event
  exhausted : VerificationResult → Event

abbrev pub Instrument : Type 0 → Type 0 → Type 0
Instrument S A = Action (Unit {0}) S A

pub record Session (S : Type 0) : Type 0 where
  pub abort : Instrument S (Unit {0})
  pub disable : Instrument S (Unit {0})
  pub output_enabled : Instrument S Bool
  pub is_dc_current : Instrument S Bool
  pub read : Register → Instrument S (Unit {0})
  pub write_zero : Register → Instrument S (Unit {0})
  pub commit : Instrument S (Unit {0})

pub record Smu (S : Type 0) : Type 0 where
  pub session : Option S
  pub last_known_output_state : Option Bool
  pub events : List Event

-- Settings.EMERGENCY_OUTPUT_OFF_MAX_ATTEMPTS
abbrev pub max_attempts : ℕ
max_attempts = 3

abbrev pub emit : {S : Type 0} → List Event → Smu S → Smu S
emit es smu = record smu { events = smu.events ++ es }

module _ {S : Type 0} (dev : Session S) where
  unfoldable pub output_disable : Smu S → Result (Unit {0}) (Unit {0}) × Smu S
  output_disable smu = elim smu.session [
    | none ↦ (ok tt, smu)
    | some s ↦ let (r, s') = dev.disable (dev.abort s).1 in (r, record smu { session = some s' })
  ]

  unfoldable pub verify_output_disabled : Smu S → Bool × Smu S
  verify_output_disabled smu = elim smu.session [
    | none ↦ (true, smu)
    | some s ↦
        let (r, s') = dev.output_enabled s in
        let smu' = record smu { session = some s' } in
        elim r [ ok enabled ↦ (not enabled, smu') | err _ ↦ (false, smu') ]
  ]

  unfoldable pub check_output_disabled_detailed : Smu S → VerificationResult × Smu S
  check_output_disabled_detailed smu = elim smu.session [
    | none ↦ (disabled, smu)
    | some s ↦
        let (r, s') = dev.output_enabled s in
        let smu' = record smu { session = some s' } in
        elim r [
          | ok enabled ↦ ((if enabled then still_enabled else disabled), smu')
          | err _ ↦ (verification_comm_failure, smu')
        ]
  ]

  unfoldable pub query_output_state : Smu S → Option Bool × Smu S
  query_output_state smu = elim smu.session [
    | none ↦ (none, record smu { last_known_output_state = none })
    | some s ↦
        let (r, s') = dev.output_enabled s in
        elim r [
          | ok state ↦
              (some state, record smu { session = some s'; last_known_output_state = some state })
          | err _ ↦ (none, record smu { session = some s'; last_known_output_state = none })
        ]
  ]

  -- It only logs what the query finds.
  abbrev pub check_current_output_state : Smu S → Option Bool × Smu S
  check_current_output_state smu = query_output_state smu

  unfoldable pub force_output_off_and_verify : Smu S → Bool × Smu S
  unfolding output_disable verify_output_disabled query_output_state
  force_output_off_and_verify smu =
      let (_, checked) = check_current_output_state smu in
      let (r, forced) = output_disable checked in
      elim r [
        | err _ ↦ (false, record forced { last_known_output_state = none })
        | ok _ ↦
            let (off, smu') = verify_output_disabled forced in
            (off, record smu' { last_known_output_state = some (not off) })
      ]

  -- The two branches of `_apply_zero_setpoint`: the registers that are set to zero.
  abbrev pub zero_active : Bool → Instrument S (List Register)
  zero_active true =
      dev.read current_level
      >> dev.read voltage_limit
      >> dev.write_zero current_level
      >> dev.write_zero voltage_limit
      >> dev.commit
      >> pure (current_level ∷ voltage_limit ∷ [])
  zero_active false =
      dev.read voltage_level
      >> dev.write_zero voltage_level
      >> dev.commit
      >> pure (voltage_level ∷ [])

  unfoldable pub zero_registers : Instrument S (List Register)
  zero_registers = dev.is_dc_current >>= zero_active

  unfoldable pub apply_zero_setpoint : Stage → Smu S → Bool × Smu S
  apply_zero_setpoint stage smu = elim smu.session [
    | none ↦ (true, smu)
    | some s ↦
        let (r, s') = zero_registers s in
        let smu' = record smu { session = some s' } in
        elim r [
          | ok registers ↦ (true, emit (map (zeroed stage) registers) smu')
          | err _ ↦ (false, smu')
        ]
  ]

  abbrev pub zero_output_setpoint_best_effort : Smu S → Bool × Smu S
  zero_output_setpoint_best_effort smu = apply_zero_setpoint post_isolation smu

  -- One round of the loop of `emergency_output_off`.
  unfoldable pub attempt : Smu S → VerificationResult × Smu S
  unfolding output_disable check_output_disabled_detailed
  attempt smu =
      let (r, smu') = output_disable smu in
      elim r [
        | err _ ↦ (verification_comm_failure, smu')
        | ok _ ↦ check_output_disabled_detailed smu'
      ]

  -- The loop with `n` rounds left, and what follows it.
  unfoldable pub retry : ℕ → VerificationResult → Smu S → Bool × Smu S
  unfolding attempt
  retry zero last smu = (false, emit (exhausted last ∷ []) smu)
  retry (suc n) last smu =
      let (result, smu') = attempt smu in
      elim result [
        | disabled ↦ (true, emit (verified disabled ∷ []) smu')
        | still_enabled ↦ retry n still_enabled smu'
        | verification_comm_failure ↦ retry n verification_comm_failure smu'
      ]

  unfoldable pub emergency_output_off : Smu S → Bool × Smu S
  unfolding apply_zero_setpoint
  emergency_output_off smu =
      let requested = emit (off_requested ∷ []) smu in
      let (_, smu') = apply_zero_setpoint pre_disable requested in
      retry max_attempts verification_comm_failure smu'
