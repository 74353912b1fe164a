-- ===== src/Battery/Temperature.antt =====
-- hardware/temperature.py: the class of an NTC reading, and what the sampling loops of the sequences
-- make of it. Voltages and temperatures are in thousandths; the logarithm of the Beta formula is a
-- parameter, as the function from a voltage inside the divider's range to a temperature.
pub mod Range
use nipxi.Prelude.{
  ℕ, ◌≡◌, refl, Bool, true, false, not, ◌&&◌, Option, none, some, if◌then◌else◌, arith,
}
use nipxi.Prelude.Int.{ℤ, pos, negsuc, ltb_ℤ}
use nipxi.Safety.Monitor.{Float, finite, SafetyMonitor, SafetyStatus, Mode, check}
use nipxi.Battery.Diagnostics.{leb_ℤ}

pub data NtcPresence : Type 0 where
  present absent fault : NtcPresence

-- ABSENT_VOLTAGE_THRESHOLD, NTC_EXCITATION_V - NTC_SHORT_VOLTAGE_MARGIN_V, and the plausible range.
abbrev pub absent_voltage : ℤ
absent_voltage = pos 50

abbrev pub plausible_min : ℤ
plausible_min = negsuc 19999

abbrev pub plausible_max : ℤ
plausible_max = pos 80000

abbrev pub excitation : ℤ
excitation = pos 5000

abbrev pub short_voltage : ℤ
short_voltage = pos 4950

module _ (beta : ℤ → ℤ) where
  -- `ntc_voltage_to_celsius`
  unfoldable pub ntc_voltage_to_celsius : ℤ → Option ℤ
  ntc_voltage_to_celsius v =
      if leb_ℤ v (pos 0) then none else if leb_ℤ excitation v then none else some (beta v)

  unfoldable pub classify_ntc_presence : ℤ → NtcPresence
  unfolding ntc_voltage_to_celsius
  classify_ntc_presence v =
      if leb_ℤ v absent_voltage
      then absent
      else if leb_ℤ short_voltage v
      then fault
      else elim (ntc_voltage_to_celsius v) [
        | none ↦ fault
        | some t ↦ if leb_ℤ plausible_min t && leb_ℤ t plausible_max then present else fault
      ]

  -- The `t_c` of a round: a temperature only for a reading that is PRESENT.
  unfoldable pub temperature_of : ℤ → Option Float
  unfolding classify_ntc_presence
  temperature_of v = elim (classify_ntc_presence v) [
    | present ↦ elim (ntc_voltage_to_celsius v) [ none ↦ none | some t ↦ some (finite t) ]
    | absent ↦ none
    | fault ↦ none
  ]
