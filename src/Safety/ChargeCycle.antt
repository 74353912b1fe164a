-- ===== src/Safety/ChargeCycle.antt =====
-- test_control/charge_cycle.py: `ChargeCycle.run`. What the clock, the token, the DAQ and the data
-- collector give in each round of the sampling loop is a list; `set_charge_mode` and `output_enable`
-- of the SMU are parameters.
pub mod Exits
use nipxi.Prelude.{
  ℕ, Bool, true, false, not, ◌&&◌, Option, none, some, List, [], ◌∷◌, if◌then◌else◌,
}
use nipxi.Prelude.Int.{ℤ, pos, ltb_ℤ}
use nipxi.Hardware.Smu.{Session, Smu, emergency_output_off}
use nipxi.Safety.Monitor.{
  Float, finite, SafetyMonitor, SafetyStatus, safe, overvoltage, undervoltage, overcurrent,
  overtemperature, BatteryCfg, charge, check, set_battery_limits, at_most, below, nan, abs_float,
  limit_or,
}

-- `sample.get("voltage_v", 0.0)` and `sample.get("current_a", 0.0)` of a sample that may lack them.
pub record Sample : Type 0 where
  pub voltage_v : Option Float
  pub current_a : Option Float

abbrev pub or_zero : Option Float → Float
or_zero none = finite (pos 0)
or_zero (some a) = a

-- One round: whether the checkpoint finds a request, the time, the sample unless the DAQ raises,
-- whether the collector raises, and whether a request comes during the wait.
pub record Round : Type 0 where
  pub cancelled_at_check : Bool
  pub elapsed : ℤ
  pub sample : Option Sample
  pub collector_raises : Bool
  pub cancelled_in_sleep : Bool

-- What `run` returns or raises; `out_of_rounds` is the end of the list.
pub data Ending : Type 0 where
  charge_complete charge_timeout cancelled device_error out_of_rounds : Ending
  violation : SafetyStatus → Ending

-- The fields of a sample that is recorded.
pub record Recorded : Type 0 where
  pub at : ℤ
  pub voltage : Float
  pub current : Float

pub record Settings : Type 0 where
  pub charge_current_a : ℤ
  pub charge_voltage_v : ℤ
  pub charge_cutoff_a : ℤ
  pub charge_timeout_s : ℤ

-- `a >= limit`
abbrev pub at_least : Float → ℤ → Bool
at_least (finite a) limit = not (ltb_ℤ a limit)
at_least nan limit = false

-- `v >= voltage_limit_v and abs(i) <= CHARGE_CUTOFF_A`
unfoldable pub is_charged : Settings → ℤ → Float → Float → Bool
is_charged s limit v i = at_least v limit && at_most (abs_float i) s.charge_cutoff_a

-- The `while` loop, and the samples that it records.
unfoldable pub sampling : Settings → SafetyMonitor → ℤ → List Round → Ending × List Recorded
sampling s monitor limit [] = (out_of_rounds, [])
sampling s monitor limit (r ∷ rs) =
    let rest = sampling s monitor limit rs in
    if r.cancelled_at_check
    then (cancelled, [])
    else if ltb_ℤ s.charge_timeout_s r.elapsed
    then (charge_timeout, [])
    else elim r.sample [
      | none ↦ (device_error, [])
      | some sample ↦
          let v = or_zero sample.voltage_v in
          let i = or_zero sample.current_a in
          let recorded : Recorded = record { at = r.elapsed; voltage = v; current = i } in
          elim (check monitor v i none (some charge)) [
            | safe ↦
                if r.collector_raises
                then (device_error, [])
                else if is_charged s limit v i
                then (charge_complete, recorded ∷ [])
                else if r.cancelled_in_sleep
                then (cancelled, recorded ∷ [])
                else (rest.0, recorded ∷ rest.1)
            | overvoltage ↦ (violation overvoltage, [])
            | undervoltage ↦ (violation undervoltage, [])
            | overcurrent ↦ (violation overcurrent, [])
            | overtemperature ↦ (violation overtemperature, [])
          ]
    ]

-- Everything that a run meets: requests before it and in the stabilization wait, and the rounds.
pub record Course : Type 0 where
  pub cancelled_before : Bool
  pub cancelled_in_stabilization : Bool
  pub rounds : List Round

-- What is left: the ending, whether a CRITICAL line is logged, the samples and the drivers.
pub record Charged (S : Type 0) : Type 0 where
  pub ending : Ending
  pub output_critical : Bool
  pub recorded : List Recorded
  pub smu : Smu S
  pub monitor : SafetyMonitor

module _ {S : Type 0} (dev : Session S) (set_charge_mode : ℤ → ℤ → Smu S → Bool × Smu S)
    (output_enable : Smu S → Bool × Smu S) where
  -- The part under `try`, and its `finally`.
  unfoldable pub energized_part : Settings → ℤ → SafetyMonitor → Course → Smu S → Charged S
  energized_part s limit monitor course smu =
      let (ending, recorded) =
        if course.cancelled_in_stabilization
        then (cancelled, [])
        else sampling s monitor limit course.rounds in
      let (off, smu') = emergency_output_off dev smu in
      record {
        ending = ending;
        output_critical = not off;
        recorded = recorded;
        smu = smu';
        monitor = monitor;
      }

  abbrev pub stopped_early : Ending → SafetyMonitor → Smu S → Charged S
  stopped_early ending monitor smu = record {
    ending = ending;
    output_critical = false;
    recorded = [];
    smu = smu;
    monitor = monitor;
  }

  -- The Boolean of a parameter says that it did not raise.
  unfoldable pub run_charge :
      Settings → Option BatteryCfg → SafetyMonitor → Course → Smu S → Charged S
  run_charge s cfg monitor course smu =
      let current_a = limit_or s.charge_current_a (λ c. c.max_charge_current_a) cfg in
      let limit = limit_or s.charge_voltage_v (λ c. c.voltage_max_v) cfg in
      let monitor' = set_battery_limits cfg monitor in
      let (configured, smu1) = set_charge_mode current_a limit smu in
      let (enabled, smu2) = output_enable smu1 in
      if course.cancelled_before
      then stopped_early cancelled monitor' smu
      else if not configured
      then stopped_early device_error monitor' smu1
      else if not enabled
      then stopped_early device_error monitor' smu2
      else energized_part s limit monitor' course smu2
