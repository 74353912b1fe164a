-- ===== src/Hardware/Smu/Sourcing/Modes.antt =====
-- hardware/smu.py: what a configured mode, an enabled output and a measurement promise.
use nipxi.Prelude.{
  zero, suc, ◌+◌, ◌≤◌, ◌≡◌, refl, Bool, true, false, Option, none, some, List, arith,
}
use nipxi.Prelude.Exec.{ok, ◌>>◌}
use nipxi.Prelude.Int.{ℤ, pos, negsuc, pos_part, neg_part, abs, neg}
use nipxi.Safety.Monitor.{Float, finite, nan}
use nipxi.Hardware.Smu.{
  Session, Smu, Instrument, Event, force_output_off_and_verify, query_output_state,
}
use nipxi.Hardware.Smu.Shutdown.{IsOff, force_output_off_and_verify-IsOff}
use nipxi.Hardware.Smu.Shutdown
use nipxi.Hardware.Smu.Sourcing.{
  SmuError, smu_error, driver_error, OutputFunction, dc_current, Setting, current_level_range,
  current_level, voltage_limit_range, voltage_limit, Controls, Measured, ConfiguredSource,
  is_mismatch, is_finite, on_session, configure_current, configure_and_verify, safe_baseline,
  configure_current_source, output_enable, measure,
}

-- There is a session, and its output is on.
abbrev pub IsOn : {S : Type 0} → (S → Bool) → Option S → Type 0
IsOn output_on none = true ≡ false
IsOn output_on (some s) = output_on s ≡ true

-- A number no further from the setpoint than the tolerance; NaN is let through.
abbrev pub IsConfirmed : ℤ → Float → Type 0
IsConfirmed expected (finite a) =
    (pos_part a + neg_part expected ≤ pos_part expected + neg_part a + 1)
    × (pos_part expected + neg_part a ≤ pos_part a + neg_part expected + 1)
IsConfirmed expected nan = Unit {0}

pub is_mismatch-IsConfirmed :
    (expected : ℤ) (actual : Float)
    → is_mismatch expected actual ≡ false
    → IsConfirmed expected actual
is_mismatch-IsConfirmed expected nan h = tt
is_mismatch-IsConfirmed expected (finite a) h = ground arith

module _ {S : Type 0} (dev : Session S) (ctl : Controls S) (output_on : S → Bool) where
  abbrev Keeps : {A : Type 0} → Instrument S A → Type 0
  Keeps act = (s : S) → output_on (act s).1 ≡ output_on s

  -- What NI-DCPower documents of the settings: using them leaves the output as it is.
  pub record KeepsSettings : Type 0 where
    pub set_output_function : (f : OutputFunction) → Keeps (ctl.set_output_function f)
    pub set_single_point : Keeps ctl.set_single_point
    pub set : (setting : Setting) (x : ℤ) → Keeps (ctl.set setting x)
    pub get : (setting : Setting) → Keeps (ctl.get setting)
    pub commit : Keeps dev.commit

  on_session-IsOff :
      {A : Type 0} (e : SmuError) (act : Instrument S A)
      → Keeps act
      → (o : Option S) (l : Option Bool) (es : List Event) → IsOff output_on o
      → IsOff output_on
          (on_session e act
            record { session = o; last_known_output_state = l; events = es }).1.session
  unfolding on_session
  on_session-IsOff e act keeps none l es off = tt
  on_session-IsOff e act keeps (some s) l es off = ground (arith, keeps s)

  module _ (keeps : KeepsSettings) where
    configure_current-Keeps : (c v : ℤ) → Keeps (configure_current dev ctl c v)
    unfolding configure_current
    configure_current-Keeps c v s0 =
        let s1 = (ctl.set_output_function dc_current s0).1 in
        let s2 = (ctl.set_single_point s1).1 in
        let s3 = (ctl.set current_level_range (abs c) s2).1 in
        let s4 = (ctl.set current_level c s3).1 in
        let s5 = (ctl.set voltage_limit_range (abs v) s4).1 in
        let s6 = (ctl.set voltage_limit v s5).1 in
        ground (
          arith,
          keeps.set_output_function dc_current s0,
          keeps.set_single_point s1,
          keeps.set current_level_range (abs c) s2,
          keeps.set current_level c s3,
          keeps.set voltage_limit_range (abs v) s4,
          keeps.set voltage_limit v s5,
          keeps.commit s6,
        )

    configure_and_verify-IsOff :
        (c v : ℤ) (smu : Smu S)
        → IsOff output_on smu.session
        → IsOff output_on (configure_and_verify dev ctl c v smu).1.session
    unfolding configure_and_verify
    configure_and_verify-IsOff c v smu off =
        let m1 = (on_session smu_error (configure_current dev ctl c v) smu).1 in
        let m2 = (on_session driver_error (ctl.get current_level) m1).1 in
        ground (
          arith,
          on_session-IsOff smu_error (configure_current dev ctl c v) (configure_current-Keeps c v)
              smu.session smu.last_known_output_state smu.events off,
          on_session-IsOff driver_error (ctl.get current_level) (keeps.get current_level) m1.session
              m1.last_known_output_state m1.events,
          on_session-IsOff driver_error (ctl.get voltage_limit) (keeps.get voltage_limit) m2.session
              m2.last_known_output_state m2.events,
        )

    configure_and_verify-IsConfirmed :
        (c v : ℤ) (smu : Smu S) (r : ConfiguredSource)
        → (configure_and_verify dev ctl c v smu).0 ≡ ok r
        → (r.commanded_current_a ≡ c)
          × (r.commanded_voltage_limit_v ≡ v)
          × (is_mismatch c r.readback_current_a ≡ false)
          × (is_mismatch v r.readback_voltage_limit_v ≡ false)
    unfolding configure_and_verify
    configure_and_verify-IsConfirmed c v smu r h = ground arith

    module _ (truthful : Shutdown.IsTruthful dev output_on) where
      -- When the output is read back truthfully and the settings leave it as it is,
      -- `_configure_current_source` returns only with the output off, the commanded setpoints those it
      -- was given, and each setpoint read back within the tolerance of the commanded one or as NaN.
      pub configure_current_source-IsConfirmed :
          (c v : ℤ) (smu : Smu S) (r : ConfiguredSource)
          → (configure_current_source dev ctl c v smu).0 ≡ ok r
          → IsOff output_on (configure_current_source dev ctl c v smu).1.session
            × (r.commanded_current_a ≡ c)
            × (r.commanded_voltage_limit_v ≡ v)
            × IsConfirmed c r.readback_current_a
            × IsConfirmed v r.readback_voltage_limit_v
      unfolding configure_current_source safe_baseline
      configure_current_source-IsConfirmed c v smu r h =
          let forced = (force_output_off_and_verify dev smu).1 in
          ground (
            arith,
            force_output_off_and_verify-IsOff dev output_on truthful smu,
            configure_and_verify-IsOff c v forced,
            configure_and_verify-IsConfirmed c v forced r,
            is_mismatch-IsConfirmed c r.readback_current_a,
            is_mismatch-IsConfirmed v r.readback_voltage_limit_v,
          )

  query-IsOn :
      Shutdown.IsTruthful dev output_on
      → (o : Option S) (l : Option Bool) (es : List Event)
      → let (state, smu) =
          query_output_state dev record { session = o; last_known_output_state = l; events = es } in
        state ≡ some true → IsOn output_on smu.session × (smu.last_known_output_state ≡ some true)
  unfolding query_output_state
  query-IsOn truthful none l es h = ground arith
  query-IsOn truthful (some s) l es h = ground (arith, truthful s true)

  -- When the output is read back truthfully, `output_enable` returns only with the output on, and
  -- recorded as on.
  pub output_enable-IsOn :
      Shutdown.IsTruthful dev output_on
      → (smu : Smu S) → (output_enable dev ctl smu).0 ≡ ok tt
      → IsOn output_on (output_enable dev ctl smu).1.session
        × ((output_enable dev ctl smu).1.last_known_output_state ≡ some true)
  unfolding output_enable
  output_enable-IsOn truthful smu h =
      let m = (on_session smu_error (ctl.enable >> dev.commit >> ctl.initiate) smu).1 in
      ground (arith, query-IsOn truthful m.session m.last_known_output_state m.events)

-- The current that a discharge is configured with is never positive.
pub pos_part-neg-abs : (a : ℤ) → pos_part (neg (abs a)) ≡ 0
pos_part-neg-abs (pos zero) = refl
pos_part-neg-abs (pos (suc n)) = refl
pos_part-neg-abs (negsuc n) = refl

-- Every reading that `measure` returns is a number.
pub measure-is_finite :
    {S : Type 0} (dev : Session S) (ctl : Controls S) (smu : Smu S) (m : Measured)
    → (measure dev ctl smu).0 ≡ ok m
    → (is_finite m.voltage_v ≡ true) × (is_finite m.current_a ≡ true)
unfolding measure
measure-is_finite dev ctl smu m h = ground arith
