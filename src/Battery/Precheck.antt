-- ===== src/Battery/Precheck.antt =====
-- test_control/battery_presence_precheck.py: the check before a run. What the DMM reads, the entry of
-- the position in the NTC snapshot and whether a call of the storage raises are parameters.
pub mod Reports
use nipxi.Prelude.{
  ℕ, Bool, true, false, not, Option, none, some, List, [], ◌∷◌, ◌++◌, is_empty, if◌then◌else◌,
}
use nipxi.Prelude.Exec.{Result, ok, err, Action}
use nipxi.Hardware.RelayEth.{Transport, Matrix, Error, open_channel, close_channel}
use nipxi.Safety.Monitor.{Float}
use nipxi.Battery.Diagnostics.{
  BatteryPresence, present, absent, reversed, classify_battery_presence,
}
use nipxi.Battery.Temperature.{NtcPresence}
use nipxi.Battery.Temperature

-- The entry of the selected position.
pub record NtcEntry : Type 0 where
  pub presence : Option NtcPresence
  pub readable : Bool
  pub daq_comm_failure : Bool

pub data Reason : Type 0 where
  battery_missing ntc_missing ntc_fault : Reason

pub record PresenceReport : Type 0 where
  pub is_fit : Bool
  pub reasons : List Reason
  pub battery_presence : Option BatteryPresence
  pub battery_voltage_v : Option Float
  pub battery_readable : Bool
  pub ntc_presence : Option NtcPresence
  pub ntc_readable : Bool
  pub station_fault : Bool

-- The calls of the storage: the warning of a failed reading, and the writes after the relay is open.
pub data Write : Type 0 where
  reading_failed later_write : Write

pub data Failure : Type 0 where
  relay_failure : Error → Failure
  storage_failure : Failure

-- `target_ntc is not None and ntc_readable and ntc_presence != PRESENT`
abbrev pub ntc_reasons : Option NtcEntry → List Reason
ntc_reasons none = []
ntc_reasons (some entry) =
    if entry.readable
    then elim entry.presence [
      | some Temperature.present ↦ []
      | some Temperature.absent ↦ ntc_missing ∷ []
      | some Temperature.fault ↦ ntc_fault ∷ []
      | none ↦ ntc_fault ∷ []
    ]
    else []

abbrev pub battery_reasons : Option BatteryPresence → List Reason
battery_reasons (some absent) = battery_missing ∷ []
battery_reasons _ = []

abbrev pub presence_of : Option Float → Option BatteryPresence
presence_of none = none
presence_of (some v) = some (classify_battery_presence v)

-- What is computed once the relay is open.
unfoldable pub report_of : Option Float → Option NtcEntry → PresenceReport
report_of voltage ntc =
    let reasons = battery_reasons (presence_of voltage) ++ ntc_reasons ntc in
    record {
      is_fit = is_empty reasons;
      reasons = reasons;
      battery_presence = presence_of voltage;
      battery_voltage_v = voltage;
      battery_readable = elim voltage [ none ↦ false | some _ ↦ true ];
      ntc_presence = elim ntc [ none ↦ none | some entry ↦ entry.presence ];
      ntc_readable = elim ntc [ none ↦ true | some entry ↦ entry.readable ];
      station_fault = elim ntc [ none ↦ false | some entry ↦ entry.daq_comm_failure ];
    }

module _ {T : Type 0} (net : Transport T) (settle_s relay_address : ℕ) (raises : Write → Bool) where
  -- The `try` around the reading: what it raises, if anything.
  abbrev pub reading_raises : Option Float → Option Failure
  reading_raises none = if raises reading_failed then some storage_failure else none
  reading_raises (some _) = none

  -- `battery_and_ntc_presence_precheck`
  unfoldable pub presence_precheck :
      Option Float → Option NtcEntry → Action Failure (Matrix T) PresenceReport
  presence_precheck voltage ntc m =
      let (closed, m') = close_channel net settle_s relay_address m in
      let (opened, m'') = open_channel net settle_s relay_address m' in
      elim closed [
        | err e ↦ (err (relay_failure e), m')
        | ok _ ↦ elim opened [
          | err e ↦ (err (relay_failure e), m'')
          | ok _ ↦ elim (reading_raises voltage) [
            | some failure ↦ (err failure, m'')
            | none ↦
                if raises later_write
                then (err storage_failure, m'')
                else (ok (report_of voltage ntc), m'')
          ]
        ]
      ]
