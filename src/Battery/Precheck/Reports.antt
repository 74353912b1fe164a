-- ===== src/Battery/Precheck/Reports.antt =====
-- test_control/battery_presence_precheck.py: what a report says, and what a check leaves of the relays.
use nipxi.Prelude.{ℕ, ◌≡◌, Bool, true, false, not, ◌&&◌, Option, none, some, arith}
use nipxi.Prelude.Exec.{ok}
use nipxi.Hardware.RelayEth.{Transport, Matrix, close_channel}
use nipxi.Hardware.RelayEth.Safety.{open_channel-AllOff}
use nipxi.Hardware.RelayEth.Safety
use nipxi.Safety.Monitor.{Float, at_most}
use nipxi.Battery.Diagnostics.{
  classify_battery_presence, reverse_polarity_threshold, empty_position_voltage,
}
use nipxi.Battery.Temperature.{NtcPresence}
use nipxi.Battery.Temperature
use nipxi.Battery.Precheck.{NtcEntry, PresenceReport, Write, report_of, presence_precheck}

-- The voltage is that of an empty position.
abbrev pub reads_empty : Option Float → Bool
reads_empty none = false
reads_empty (some v) =
    at_most v empty_position_voltage && not (at_most v reverse_polarity_threshold)

-- The sensor is read, and no battery is on it.
abbrev pub reads_no_sensor : Option NtcEntry → Bool
reads_no_sensor none = false
reads_no_sensor (some entry) = entry.readable && not (is_present entry.presence)
  where
    is_present : Option NtcPresence → Bool
    is_present (some Temperature.present) = true
    is_present _ = false

report_of-is_fit :
    (voltage : Option Float) (ntc : Option NtcEntry)
    → (report_of voltage ntc).is_fit ≡ (not (reads_empty voltage) && not (reads_no_sensor ntc))
unfolding report_of classify_battery_presence
report_of-is_fit voltage ntc = ground arith

module _ {T : Type 0} (net : Transport T) (energized : T → ℕ)
    (truthful : Safety.IsTruthful net energized) (settle_s relay_address : ℕ)
    (raises : Write → Bool) where
  -- When the readback is truthful, a check that returns has left every relay off, and lets the run
  -- start exactly when the voltage is not that of an empty position and the sensor, if there is one
  -- that can be read, is present. A reading that fails is no reason against the run.
  pub presence_precheck-AllOff :
      (voltage : Option Float) (ntc : Option NtcEntry) (m : Matrix T) (report : PresenceReport)
      → (presence_precheck net settle_s relay_address raises voltage ntc m).0 ≡ ok report
      → (energized
            (presence_precheck net settle_s relay_address raises voltage ntc m).1.module_state
          ≡ 0)
        × (report.is_fit ≡ (not (reads_empty voltage) && not (reads_no_sensor ntc)))
  unfolding presence_precheck
  presence_precheck-AllOff voltage ntc m report h =
      let m' = (close_channel net settle_s relay_address m).1 in
      ground (
        arith,
        (open_channel-AllOff net energized truthful settle_s relay_address m').0,
        report_of-is_fit voltage ntc,
      )
