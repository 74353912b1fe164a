-- ===== src/Safety/ChargeCycle/Exits.antt =====
-- test_control/charge_cycle.py: how a charge ends.
use nipxi.Prelude.{
  ◌≡◌, ◌≢◌, refl, Bool, true, false, not, ◌||◌, Option, none, some, List, [], ◌∷◌, any, arith,
}
use nipxi.Prelude.Int.{ℤ, ltb_ℤ}
use nipxi.Hardware.Smu.{Session, Smu}
use nipxi.Hardware.Smu.Shutdown.{IsTruthful, IsOff, emergency_output_off-IsOff}
use nipxi.Safety.Monitor.{SafetyMonitor, SafetyStatus, BatteryCfg, safe, charge, check, limit_or}
use nipxi.Safety.ChargeCycle.{
  Settings, Round, Recorded, Ending, out_of_rounds, charge_complete, Course, sampling,
  energized_part, run_charge, is_charged,
}

abbrev pub is_safe : SafetyStatus → Bool
is_safe safe = true
is_safe _ = false

-- A sample outside the limits of a charge, or taken after the timeout.
abbrev pub is_bad : Settings → SafetyMonitor → Recorded → Bool
is_bad s monitor r =
    not (is_safe (check monitor r.voltage r.current none (some charge)))
    || ltb_ℤ s.charge_timeout_s r.at

-- Some sample ends the charge.
abbrev pub any_charged : Settings → ℤ → List Recorded → Bool
any_charged s limit rs = any (λ r. is_charged s limit r.voltage r.current) rs

abbrev pub is_complete : Ending → Bool
is_complete charge_complete = true
is_complete _ = false

sampling-is_bad :
    (s : Settings) (monitor : SafetyMonitor) (limit : ℤ) (rounds : List Round)
    → any (is_bad s monitor) (sampling s monitor limit rounds).1 ≡ false
unfolding sampling
sampling-is_bad s monitor limit [] = refl
sampling-is_bad s monitor limit (r ∷ rs) = ground (arith, sampling-is_bad s monitor limit rs)

sampling-any_charged :
    (s : Settings) (monitor : SafetyMonitor) (limit : ℤ) (rounds : List Round)
    → is_complete (sampling s monitor limit rounds).0
      ≡ any_charged s limit (sampling s monitor limit rounds).1
unfolding sampling
sampling-any_charged s monitor limit [] = refl
sampling-any_charged s monitor limit (r ∷ rs) =
    ground (arith, sampling-any_charged s monitor limit rs)

-- Every sample that the loop records passed the safety check and was taken before the timeout; and
-- the loop ends with a complete charge exactly when a recorded sample reaches the voltage with the
-- current at most the cutoff.
pub sampling_lem :
    (s : Settings) (monitor : SafetyMonitor) (limit : ℤ) (rounds : List Round)
    → (any (is_bad s monitor) (sampling s monitor limit rounds).1 ≡ false)
      × (is_complete (sampling s monitor limit rounds).0
          ≡ any_charged s limit (sampling s monitor limit rounds).1)
sampling_lem s monitor limit rounds =
    (sampling-is_bad s monitor limit rounds, sampling-any_charged s monitor limit rounds)

-- The loop cannot go on past the timeout: when some round comes after it, the loop has an ending.
pub sampling-ends :
    (s : Settings) (monitor : SafetyMonitor) (limit : ℤ) (rounds : List Round)
    → any (λ r. ltb_ℤ s.charge_timeout_s r.elapsed) rounds ≡ true
    → (sampling s monitor limit rounds).0 ≢ out_of_rounds
unfolding sampling
sampling-ends s monitor limit [] h e = ground arith
sampling-ends s monitor limit (r ∷ rs) h e = ground (arith, sampling-ends s monitor limit rs)

-- When the readback is truthful, a run whose output was enabled, however it ends, leaves the output
-- off unless it logs that this could not be verified; and a run that was cancelled beforehand leaves
-- the SMU untouched.
pub run_charge-IsOff :
    {S : Type 0} (dev : Session S) (output_on : S → Bool)
    (set_charge_mode : ℤ → ℤ → Smu S → Bool × Smu S) (output_enable : Smu S → Bool × Smu S)
    (s : Settings) (cfg : Option BatteryCfg) (monitor : SafetyMonitor) (course : Course)
    (smu : Smu S)
    → IsTruthful dev output_on
    → let current_a = limit_or s.charge_current_a (λ c. c.max_charge_current_a) cfg in
      let limit = limit_or s.charge_voltage_v (λ c. c.voltage_max_v) cfg in
      let configured = set_charge_mode current_a limit smu in
      let charged = run_charge dev set_charge_mode output_enable s cfg monitor course smu in
      (course.cancelled_before ≡ true → charged.smu ≡ smu)
      × (course.cancelled_before ≡ false
          → configured.0 ≡ true
          → (output_enable configured.1).0 ≡ true
          → charged.output_critical ≡ false
          → IsOff output_on charged.smu.session)
unfolding run_charge energized_part
run_charge-IsOff dev output_on set_charge_mode output_enable s cfg monitor course smu truthful = (
  λ h. ground arith,
  λ a b c d.
      let configured =
        set_charge_mode (limit_or s.charge_current_a (λ c. c.max_charge_current_a) cfg)
          (limit_or s.charge_voltage_v (λ c. c.voltage_max_v) cfg) smu in
      ground
        (arith, emergency_output_off-IsOff dev output_on truthful (output_enable configured.1).1),
)
