-- ===== src/Battery/Scan.antt =====
-- test_control/monitor_battery_scan_sequence.py: each position measured open, closed, through a dwell,
-- and open again, under `run_guarded`. Drawing the screen is left out.
pub mod Idle
use nipxi.Prelude.{
  ℕ, zero, suc, ◌+◌, ◌*◌, Bool, true, false, ◌||◌, Option, List, [], ◌∷◌, ◌==◌, leb, ltb,
}
use nipxi.Prelude.Exec.{Result, ok, err, pure, ◌>>=◌, ◌>>◌}
use nipxi.Prelude.Int.{ℤ}
use nipxi.Hardware.Smu.{Session}
use nipxi.Hardware.RelayEth.{Transport, open_channel, close_channel}
use nipxi.Safety.Guard.{
  Exception, cancelled, unexpected, no_exception_class, StorageCall, Station, Op, run_guarded,
  complete,
}
use nipxi.Battery.Operation.{fail_if, on_relay}

-- The three phases in which the DMM takes its samples.
pub data ScanPhase : Type 0 where
  open_before closed open_after : ScanPhase

-- Where the scan of a position writes to the database: for each phase the measured voltage and the
-- measurement, and the steps between them.
pub data ScanEntry : Type 0 where
  relays_open relay_closed relay_reopened : ScanEntry
  daq_sampled daq_failed dwell_started dwell_announced dwell_completed isolation : ScanEntry
  voltage_logged measurement : ScanPhase → ScanEntry

-- What `read_channel` of the DAQ gives: a value, a DAQError, which is caught, or another exception.
pub data DaqReading : Type 0 where
  daq_value daq_error daq_other : DaqReading

-- One round of the dwell: the time when its wait ends, and what it meets.
pub record DwellRound : Type 0 where
  pub cancelled_in_sleep : Bool
  pub elapsed : ℕ
  pub dmm_raises : Bool
  pub daq : DaqReading
  pub daq_log_raises : Bool
  pub record_raises : Bool
  pub log_raises : Bool

-- What the scan of one position meets; `dmm_raises` is about the reading that so many follow.
pub record ScanCourse : Type 0 where
  pub relay_address : ℕ
  pub select_raises : Bool
  pub cancelled_before : Bool
  pub storage_raises : ScanEntry → Bool
  pub dmm_raises : ScanPhase → ℕ → Bool
  pub daq : DaqReading
  pub dwell : List DwellRound

module _ {S T : Type 0} (dev : Session S) (net : Transport T) (settle_s samples dwell_s : ℕ) where
  -- `measure_dc_voltage`
  abbrev pub take_reading : Bool → Op S T (Unit {0})
  take_reading raises st = elim raises [
    | true ↦ (err unexpected, st)
    | false ↦ (ok tt, record st { readings = suc st.readings })
  ]

  unfoldable pub take_readings : (ℕ → Bool) → ℕ → Op S T (Unit {0})
  take_readings raises zero st = (ok tt, st)
  take_readings raises (suc n) st = (take_reading (raises n) >> take_readings raises n) st

  -- The average of no readings is a division by zero.
  unfoldable pub sample_dmm : (ℕ → Bool) → Op S T (Unit {0})
  sample_dmm raises = take_readings raises samples >> fail_if (samples == 0) unexpected

  abbrev pub read_daq : DaqReading → Bool → Bool → Op S T (Unit {0})
  read_daq daq_value value_log_raises error_log_raises = fail_if value_log_raises unexpected
  read_daq daq_error value_log_raises error_log_raises = fail_if error_log_raises unexpected
  read_daq daq_other value_log_raises error_log_raises = fail_if true unexpected

  -- The body of the `while` loop.
  unfoldable pub dwell_round : DwellRound → Op S T (Unit {0})
  dwell_round r =
      fail_if r.cancelled_in_sleep cancelled
      >> take_reading r.dmm_raises
      >> read_daq r.daq false r.daq_log_raises
      >> fail_if r.record_raises unexpected
      >> fail_if r.log_raises unexpected

  -- The loop from a time, with the samples taken so far; when its rounds run out it has not ended.
  unfoldable pub dwell_loop : ℕ → ℕ → List DwellRound → Op S T ℕ
  dwell_loop elapsed sample_count [] st = elim (leb dwell_s elapsed) [
    | true ↦ (ok sample_count, st)
    | false ↦ (err no_exception_class, st)
  ]
  dwell_loop elapsed sample_count (r ∷ rest) st = elim (leb dwell_s elapsed) [
    | true ↦ (ok sample_count, st)
    | false ↦ (dwell_round r >> dwell_loop r.elapsed (suc sample_count) rest) st
  ]

  -- One of the three phases: the samples, and what is written of them.
  unfoldable pub scan_phase : ScanCourse → ScanPhase → Op S T (Unit {0})
  scan_phase c phase =
      sample_dmm (c.dmm_raises phase)
      >> fail_if (c.storage_raises (voltage_logged phase)) unexpected
      >> fail_if (c.storage_raises (measurement phase)) unexpected

  -- In the closed phase the DAQ is read between the two.
  unfoldable pub scan_closed : ScanCourse → Op S T (Unit {0})
  scan_closed c =
      sample_dmm (c.dmm_raises closed)
      >> fail_if (c.storage_raises (voltage_logged closed)) unexpected
      >> read_daq c.daq (c.storage_raises daq_sampled) (c.storage_raises daq_failed)
      >> fail_if (c.storage_raises (measurement closed)) unexpected

  unfoldable pub monitor_dwell : ScanCourse → Op S T ℕ
  monitor_dwell c =
      fail_if (c.storage_raises dwell_started) unexpected
      >> fail_if (c.storage_raises dwell_announced) unexpected
      >> dwell_loop 0 0 c.dwell
      >>= λ sample_count. fail_if (c.storage_raises dwell_completed) unexpected >> pure sample_count

  -- The three parts of `_scan_one_position`: before the relay is closed, while it is, and after.
  unfoldable pub scan_before : ScanCourse → Op S T (Unit {0})
  scan_before c =
      on_relay (open_channel net settle_s c.relay_address)
      >> fail_if (c.storage_raises relays_open) unexpected
      >> scan_phase c open_before

  unfoldable pub scan_between : ScanCourse → Op S T ℕ
  scan_between c =
      on_relay (close_channel net settle_s c.relay_address)
      >> fail_if (c.storage_raises relay_closed) unexpected
      >> scan_closed c
      >> monitor_dwell c

  unfoldable pub scan_after : ScanCourse → Op S T (Unit {0})
  scan_after c =
      on_relay (open_channel net settle_s c.relay_address)
      >> fail_if (c.storage_raises relay_reopened) unexpected
      >> scan_phase c open_after
      >> fail_if (c.storage_raises isolation) unexpected

  unfoldable pub scan_one_position : ScanCourse → Op S T ℕ
  scan_one_position c = scan_before c >> scan_between c >>= λ dwelt.
      scan_after c >> pure (samples + samples + dwelt + samples)

  -- `_scan_this_position`
  unfoldable pub scan_this_position : ScanCourse → Op S T ℕ
  scan_this_position c = fail_if c.cancelled_before cancelled >> scan_one_position c

  -- The loop over the positions: the samples in all.
  unfoldable pub scan_positions :
      (StorageCall → Option Exception) → Option ℤ → ℕ → List ScanCourse → Op S T ℕ
  scan_positions storage final_voltage total [] st = (ok total, st)
  scan_positions storage final_voltage total (c ∷ cs) st =
      (fail_if c.select_raises unexpected
          >> run_guarded dev net storage final_voltage (scan_this_position c)
          >>= λ n. scan_positions storage final_voltage (total + n) cs)
        st

  -- `run`: the result stands for the `sample_count` that it completes with.
  unfoldable pub run_scan :
      (StorageCall → Option Exception) → Option ℤ → Bool → List ScanCourse → Op S T ℕ
  run_scan storage final_voltage start_raises cs =
      fail_if start_raises unexpected >> scan_positions storage final_voltage 0 cs >>= λ total.
      complete dev net storage final_voltage >> pure total
