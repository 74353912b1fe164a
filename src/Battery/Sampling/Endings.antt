-- ===== src/Battery/Sampling/Endings.antt =====
-- test_control/charge_sequence.py and discharge_sequence.py: how their sampling loops end.
use nipxi.Prelude.{
  ℕ, zero, suc, ◌≡◌, ◌≢◌, refl, Bool, true, false, not, ◌||◌, Option, none, some, List, [], ◌∷◌,
  any, arith, leb,
}
use nipxi.Prelude.Int.{ℤ, ltb_ℤ}
use nipxi.Safety.Monitor.{Float, nan, SafetyMonitor, SafetyStatus, safe, Mode, check}
use nipxi.Battery.Diagnostics.{Reading}
use nipxi.Battery.Sampling.{
  Round, Verdict, goes_on, reached, removed, Judge, Ending, end_reached, dmm_lost, battery_removed,
  out_of_rounds, Recorded, max_failures, sample_loop,
}

abbrev pub is_ok_status : SafetyStatus → Bool
is_ok_status safe = true
is_ok_status _ = false

-- The first sample that does not let the loop go on.
abbrev pub first_verdict : Judge → Option Reading → List Recorded → Verdict
first_verdict judge prev [] = goes_on
first_verdict judge prev (r ∷ rs) =
    let later = first_verdict judge (some r.reading) rs in
    elim (judge prev r.reading) [ goes_on ↦ later | reached ↦ reached | removed ↦ removed ]

abbrev pub verdict_of : Ending → Verdict
verdict_of end_reached = reached
verdict_of battery_removed = removed
verdict_of _ = goes_on

-- Whether the DMM fails so often in a row, after `failures` of them, that the count reaches the
-- maximum.
abbrev pub fails_in_row : ℕ → List Round → Bool
fails_in_row failures [] = false
fails_in_row failures (r ∷ rs) =
    let failing = leb max_failures (suc failures) || fails_in_row (suc failures) rs in
    let working = fails_in_row zero rs in elim r.dmm_voltage [ none ↦ failing | some _ ↦ working ]

-- The sample of a round that has one.
abbrev value_of : Option Float → Float
value_of none = nan
value_of (some a) = a

abbrev sample_of : Round → Reading
sample_of r = record { v = value_of r.dmm_voltage; i = value_of r.smu_current }

module _ (judge : Judge) (timeout_s : ℤ) (mode : Mode) (monitor : SafetyMonitor) where
  -- A recorded sample outside the limits, or taken after the timeout.
  abbrev pub is_late_or_unsafe : Recorded → Bool
  is_late_or_unsafe r =
      not (is_ok_status (check monitor r.reading.v r.reading.i r.temp (some mode)))
      || ltb_ℤ timeout_s r.at

  sample_loop-is_late_or_unsafe :
      (failures : ℕ) (prev : Option Reading) (rs : List Round)
      → any is_late_or_unsafe (sample_loop judge timeout_s mode monitor failures prev rs).1 ≡ false
  unfolding sample_loop
  sample_loop-is_late_or_unsafe failures prev [] = refl
  sample_loop-is_late_or_unsafe failures prev (r ∷ rs) = ground (
    arith,
    sample_loop-is_late_or_unsafe (suc failures) prev rs,
    sample_loop-is_late_or_unsafe zero (some (sample_of r)) rs,
  )

  sample_loop-verdict_of :
      (failures : ℕ) (prev : Option Reading) (rs : List Round)
      → let (e, recorded) = sample_loop judge timeout_s mode monitor failures prev rs in
        verdict_of e ≡ first_verdict judge prev recorded
  unfolding sample_loop
  sample_loop-verdict_of failures prev [] = refl
  sample_loop-verdict_of failures prev (r ∷ rs) = ground (
    arith,
    sample_loop-verdict_of (suc failures) prev rs,
    sample_loop-verdict_of zero (some (sample_of r)) rs,
  )

  -- The loop gives the DMM up only when it fails three times in a row.
  pub sample_loop-dmm_lost :
      (failures : ℕ) (prev : Option Reading) (rs : List Round)
      → fails_in_row failures rs ≡ false
      → (sample_loop judge timeout_s mode monitor failures prev rs).0 ≢ dmm_lost
  unfolding sample_loop
  sample_loop-dmm_lost failures prev [] h e = ground arith
  sample_loop-dmm_lost failures prev (r ∷ rs) h e = ground (
    arith,
    sample_loop-dmm_lost (suc failures) prev rs,
    sample_loop-dmm_lost zero (some (sample_of r)) rs,
  )

  -- The loop cannot go on past the timeout: when some round comes after it, the loop has an ending.
  pub sample_loop-timeout :
      (failures : ℕ) (prev : Option Reading) (rs : List Round)
      → any (λ r. ltb_ℤ timeout_s r.elapsed) rs ≡ true
      → (sample_loop judge timeout_s mode monitor failures prev rs).0 ≢ out_of_rounds
  unfolding sample_loop
  sample_loop-timeout failures prev [] h e = ground arith
  sample_loop-timeout failures prev (r ∷ rs) h e = ground (
    arith,
    sample_loop-timeout (suc failures) prev rs,
    sample_loop-timeout zero (some (sample_of r)) rs,
  )

  -- Every sample that the loop records passed the safety check and was taken before the timeout; and
  -- the loop reports the end, or a battery that was removed, exactly when that is the verdict on the
  -- first recorded sample, seen with the one before it, that does not let it go on.
  pub sample_loop_lem :
      (failures : ℕ) (prev : Option Reading) (rs : List Round)
      → let (e, recorded) = sample_loop judge timeout_s mode monitor failures prev rs in
        (any is_late_or_unsafe recorded ≡ false)
        × (verdict_of e ≡ first_verdict judge prev recorded)
  sample_loop_lem failures prev rs =
      (sample_loop-is_late_or_unsafe failures prev rs, sample_loop-verdict_of failures prev rs)
