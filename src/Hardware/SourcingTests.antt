-- ===== src/Hardware/SourcingTests.antt =====
-- The SMU driver on a small supply: its state is whether the output is on, every setting reads as 5.
use nipxi.Prelude.{◌≡◌, refl, Bool, true, false, none, some, [], arith}
use nipxi.Prelude.Int.{pos}
use nipxi.Prelude.Exec.{ok, err}
use nipxi.Safety.Monitor.{finite}
use nipxi.Hardware.Smu.{Session, Smu, force_output_off_and_verify}
use nipxi.Hardware.Smu.Shutdown.{IsOff}
use nipxi.Hardware.Smu.Sourcing.{
  Controls, ConfiguredSource, configure_current_source, safe_baseline, configure_and_verify,
  on_session, configure_current,
}
use nipxi.Hardware.Smu.Sourcing.Modes.{
  KeepsSettings, IsConfirmed, configure_current_source-IsConfirmed,
}
use nipxi.Hardware.Smu.PointSource.{configure_point, source_dc_voltage_point}
use nipxi.Hardware.Smu.PointSource.Ends.{DisablesOutput, IsEnded, source_dc_voltage_point-IsEnded}

abbrev pub supply : Session Bool
supply = record {
  abort = λ s. (ok tt, s);
  disable = λ s. (ok tt, false);
  output_enabled = λ s. (ok s, s);
  is_dc_current = λ s. (ok true, s);
  read = λ _ s. (ok tt, s);
  write_zero = λ _ s. (ok tt, s);
  commit = λ s. (ok tt, s);
}

abbrev pub controls : Controls Bool
controls = record {
  set_output_function = λ _ s. (ok tt, s);
  set_single_point = λ s. (ok tt, s);
  set = λ _ _ s. (ok tt, s);
  get = λ _ s. (ok (finite (pos 5)), s);
  enable = λ s. (ok tt, true);
  initiate = λ s. (ok tt, s);
  end_acquisition = λ s. (ok tt, s);
  query_in_compliance = λ s. (ok false, s);
  measure_one = λ _ s. (ok (finite (pos 5)), s);
  self_test = λ s. (ok tt, s);
  instrument_model = λ s. (ok (finite (pos 4139)), s);
}

abbrev pub identity : Bool → Bool
identity on = on

pub supply_truthful :
    (s b : Bool) → (supply.output_enabled s).0 ≡ ok b → identity (supply.output_enabled s).1 ≡ b
supply_truthful s b h = ground arith

supply_keeps : KeepsSettings supply controls identity
supply_keeps = record {
  set_output_function = λ _ s. refl;
  set_single_point = λ s. refl;
  set = λ _ _ s. refl;
  get = λ _ s. refl;
  commit = λ s. refl;
}

pub supply_disables : DisablesOutput supply identity
supply_disables = record { disable = λ s h. refl; output_enabled = λ s. refl }

abbrev pub supplying : Smu Bool
supplying = record { session = some true; last_known_output_state = none; events = [] }

abbrev configured : ConfiguredSource
configured = record {
  commanded_current_a = pos 5;
  readback_current_a = finite (pos 5);
  commanded_voltage_limit_v = pos 4;
  readback_voltage_limit_v = finite (pos 5);
}

configure_current_source-IsConfirmed_example :
    IsOff identity (configure_current_source supply controls (pos 5) (pos 4) supplying).1.session
    × (configured.commanded_current_a ≡ pos 5)
    × (configured.commanded_voltage_limit_v ≡ pos 4)
    × IsConfirmed (pos 5) configured.readback_current_a
    × IsConfirmed (pos 4) configured.readback_voltage_limit_v
unfolding configure_current_source safe_baseline force_output_off_and_verify configure_and_verify
    on_session configure_current
configure_current_source-IsConfirmed_example =
    configure_current_source-IsConfirmed supply controls identity supply_keeps supply_truthful
      (pos 5) (pos 4) supplying configured refl

source_dc_voltage_point-IsEnded_example :
    IsEnded {D = Bool} identity
      (pos 5)
      (pos 4)
      (source_dc_voltage_point supply controls
        (pos 5)
        (pos 4)
        (pos 6)
        (some (ok true))
        false
        supplying).0
      (source_dc_voltage_point supply controls
        (pos 5)
        (pos 4)
        (pos 6)
        (some (ok true))
        false
        supplying).1.session
source_dc_voltage_point-IsEnded_example =
    source_dc_voltage_point-IsEnded supply controls (pos 5) (pos 4) (pos 6) (some (ok true)) false
      identity supply_disables supplying

-- A supply whose commit raises once the output is enabled.
abbrev stubborn : Session Bool
stubborn = record supply { commit = λ s. (err tt, s) }

-- The output stays on.
left_on :
    (source_dc_voltage_point {D = Bool} stubborn controls
      (pos 5)
      (pos 4)
      (pos 6)
      none
      false
      supplying).1.session
    ≡ some true
unfolding source_dc_voltage_point safe_baseline force_output_off_and_verify on_session
    configure_point
left_on = refl
