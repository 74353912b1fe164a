-- ===== src/Hardware/Smu/Sourcing.antt =====
-- hardware/smu.py: the session, configuring a source mode, enabling the output, and measuring. The
-- nidcpower session is a parameter here too; the flag `connected` is not kept.
pub mod Modes
use nipxi.Prelude.{Bool, true, false, not, Option, none, some, if◌then◌else◌}
use nipxi.Prelude.Exec.{Result, ok, err, Action, pure, raise, ◌>>=◌, ◌>>◌}
use nipxi.Prelude.Int.{ℤ, pos, abs, neg, ◌-ℤ◌}
use nipxi.Safety.Monitor.{Float, finite, nan, above, abs_float}
use nipxi.Hardware.Smu.{
  Instrument, Session, Smu, query_output_state, force_output_off_and_verify, output_disable,
  verify_output_disabled,
}

-- An SMUError, an SMUStateVerificationError, an OperationCancelledError, and what the session itself
-- raises.
pub data SmuError : Type 0 where
  smu_error smu_state_verification_error operation_cancelled driver_error : SmuError

pub data OutputFunction : Type 0 where
  dc_current dc_voltage : OutputFunction

pub data Setting : Type 0 where
  current_level_range current_level voltage_limit_range voltage_limit : Setting
  voltage_level_range voltage_level current_limit : Setting

pub data MeasurementType : Type 0 where
  voltage current : MeasurementType

-- What the session offers beside `Session`: `end_acquisition` is what leaving the `with` block of
-- `initiate` does.
pub record Controls (S : Type 0) : Type 0 where
  pub set_output_function : OutputFunction → Instrument S (Unit {0})
  pub set_single_point : Instrument S (Unit {0})
  pub set : Setting → ℤ → Instrument S (Unit {0})
  pub get : Setting → Instrument S Float
  pub enable : Instrument S (Unit {0})
  pub initiate : Instrument S (Unit {0})
  pub end_acquisition : Instrument S (Unit {0})
  pub query_in_compliance : Instrument S Bool
  pub measure_one : MeasurementType → Instrument S Float
  pub self_test : Instrument S (Unit {0})
  pub instrument_model : Instrument S Float

-- Settings.SMU_CURRENT_READBACK_TOLERANCE_A and SMU_VOLTAGE_READBACK_TOLERANCE_V, where a unit is
-- 0.1 mA or 0.1 mV.
abbrev pub readback_tolerance : ℤ
readback_tolerance = pos 1

abbrev pub Call : Type 0 → Type 0 → Type 0
Call S A = Action SmuError (Smu S) A

-- `actual - expected`
abbrev pub minus : Float → ℤ → Float
minus (finite a) b = finite (a -ℤ b)
minus nan b = nan

-- The test of `_verify_config_readback` with a tolerance.
abbrev pub is_mismatch : ℤ → Float → Bool
is_mismatch expected actual = above (abs_float (minus actual expected)) readback_tolerance

pub record ConfiguredSource : Type 0 where
  pub commanded_current_a : ℤ
  pub readback_current_a : Float
  pub commanded_voltage_limit_v : ℤ
  pub readback_voltage_limit_v : Float

pub record Measured : Type 0 where
  pub voltage_v : Float
  pub current_a : Float

abbrev pub is_finite : Float → Bool
is_finite (finite a) = true
is_finite nan = false

module _ {S : Type 0} where
  -- A use of the session; what it raises is the error that is given.
  unfoldable pub on_session : {A : Type 0} → SmuError → Instrument S A → Call S A
  on_session e act smu = elim smu.session [
    | none ↦ (err e, smu)
    | some s ↦
        let (r, s') = act s in
        let smu' = record smu { session = some s' } in
        elim r [ ok a ↦ (ok a, smu') | err _ ↦ (err e, smu') ]
  ]

  abbrev pub verify_config_readback : ℤ → Float → Call S (Unit {0})
  verify_config_readback expected actual smu = elim (is_mismatch expected actual) [
    | true ↦ (err smu_state_verification_error, smu)
    | false ↦ (ok tt, smu)
  ]

module _ {S : Type 0} (dev : Session S) (ctl : Controls S) where
  -- `connect`: the session that nidcpower opens, if it does.
  unfoldable pub connect_smu : Option S → Call S (Unit {0})
  connect_smu opened smu = elim opened [
    | none ↦ (err smu_error, smu)
    | some s ↦ (ok tt, record smu { session = some s })
  ]

  -- What `close` does to the instrument is lost with the session.
  abbrev pub disconnect_smu : Smu S → Smu S
  disconnect_smu smu = record smu { session = none }

  unfoldable pub identify : Call S Float
  identify = on_session smu_error ctl.self_test >> on_session driver_error ctl.instrument_model

  -- The `try` block of `_configure_current_source`.
  unfoldable pub configure_current : ℤ → ℤ → Instrument S (Unit {0})
  configure_current current_a voltage_limit_v =
      ctl.set_output_function dc_current
      >> ctl.set_single_point
      >> ctl.set current_level_range (abs current_a)
      >> ctl.set current_level current_a
      >> ctl.set voltage_limit_range (abs voltage_limit_v)
      >> ctl.set voltage_limit voltage_limit_v
      >> dev.commit

  -- What follows a verified baseline.
  unfoldable pub configure_and_verify : ℤ → ℤ → Call S ConfiguredSource
  configure_and_verify current_a voltage_limit_v =
      on_session smu_error (configure_current current_a voltage_limit_v)
      >> on_session driver_error (ctl.get current_level)
      >>= λ readback_current.
          on_session driver_error (ctl.get voltage_limit) >>= λ readback_voltage_limit.
          verify_config_readback current_a readback_current
          >> verify_config_readback voltage_limit_v readback_voltage_limit
          >> pure record {
            commanded_current_a = current_a;
            readback_current_a = readback_current;
            commanded_voltage_limit_v = voltage_limit_v;
            readback_voltage_limit_v = readback_voltage_limit;
          }

  -- The tests before anything is configured.
  unfoldable pub safe_baseline : {A : Type 0} → Call S A → Call S A
  safe_baseline next smu = elim smu.session [
    | none ↦ (err smu_error, smu)
    | some _ ↦
        let (off, smu') = force_output_off_and_verify dev smu in
        elim off [ true ↦ next smu' | false ↦ (err smu_error, smu') ]
  ]

  unfoldable pub configure_current_source : ℤ → ℤ → Call S ConfiguredSource
  configure_current_source current_a voltage_limit_v =
      safe_baseline (configure_and_verify current_a voltage_limit_v)

  abbrev pub set_charge_mode : ℤ → ℤ → Call S ConfiguredSource
  set_charge_mode current_a voltage_limit_v = configure_current_source current_a voltage_limit_v

  abbrev pub set_discharge_mode : ℤ → ℤ → Call S ConfiguredSource
  set_discharge_mode current_a voltage_limit_v =
      configure_current_source (neg (abs current_a)) voltage_limit_v

  unfoldable pub output_enable : Call S (Unit {0})
  output_enable smu =
      let (r, smu') = on_session smu_error (ctl.enable >> dev.commit >> ctl.initiate) smu in
      elim r [
        | err e ↦ (err e, smu')
        | ok _ ↦
            let (state, queried) = query_output_state dev smu' in
            elim state [
              | none ↦ (err smu_error, queried)
              | some on ↦ elim on [ true ↦ (ok tt, queried) | false ↦ (err smu_error, queried) ]
            ]
      ]

  unfoldable pub measure : Call S Measured
  measure = on_session smu_error (ctl.measure_one voltage) >>= λ voltage_v.
      on_session smu_error (ctl.measure_one current) >>= λ current_a. λ smu.
        elim (is_finite voltage_v) [
          | false ↦ (err smu_error, smu)
          | true ↦ elim (is_finite current_a) [
            | false ↦ (err smu_error, smu)
            | true ↦ (ok record { voltage_v = voltage_v; current_a = current_a }, smu)
          ]
        ]
