-- ===== src/Battery/Temperature/Range.antt =====
-- hardware/temperature.py: which readings reach the safety check of a sequence.
use nipxi.Prelude.{◌≡◌, ◌↔◌, refl, true, false, Option, none, some, arith}
use nipxi.Prelude.Int.{ℤ, pos}
use nipxi.Safety.Monitor.{Float, finite, SafetyMonitor, Mode, check}
use nipxi.Battery.Diagnostics.{leb_ℤ}
use nipxi.Battery.Temperature.{
  absent_voltage, short_voltage, excitation, plausible_min, plausible_max, temperature_of,
  classify_ntc_presence, ntc_voltage_to_celsius,
}

divider_range :
    (v : ℤ)
    → leb_ℤ v absent_voltage ≡ false
    → leb_ℤ short_voltage v ≡ false
    → (leb_ℤ v (pos 0) ≡ false) × (leb_ℤ excitation v ≡ false)
unfolding leb_ℤ
divider_range v h k = (ground arith, ground arith)

module _ (beta : ℤ → ℤ) where
  -- A reading gives a temperature exactly when its voltage lies between that of an open and that of a
  -- shorted sensor and the temperature is between -20 and 80 degrees, and then it is that one.
  pub temperature_of_iff :
      (v t : ℤ)
      → (temperature_of beta v ≡ some (finite t)) ↔ (
          (leb_ℤ v absent_voltage ≡ false)
          × (leb_ℤ short_voltage v ≡ false)
          × (beta v ≡ t)
          × (leb_ℤ plausible_min t ≡ true)
          × (leb_ℤ t plausible_max ≡ true))
  unfolding temperature_of classify_ntc_presence ntc_voltage_to_celsius
  temperature_of_iff v t = ground (arith, divider_range v)

  temperature_of-eq-none :
      (v : ℤ) → leb_ℤ (beta v) plausible_max ≡ false → temperature_of beta v ≡ none
  unfolding temperature_of classify_ntc_presence ntc_voltage_to_celsius
  temperature_of-eq-none v h = ground (arith, divider_range v)

  -- A reading above 80 degrees never stops an operation: for any limits the safety check answers as
  -- it does with no reading at all.
  implausible_heat :
      (v : ℤ) (m : SafetyMonitor) (voltage current : Float) (mode : Option Mode)
      → leb_ℤ (beta v) plausible_max ≡ false
      → check m voltage current (temperature_of beta v) mode ≡ check m voltage current none mode
  implausible_heat v m voltage current mode h = rw (temperature_of-eq-none v h) refl
