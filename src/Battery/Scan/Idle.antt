-- ===== src/Battery/Scan/Idle.antt =====
-- test_control/monitor_battery_scan_sequence.py: what a scan that returns leaves of the two drivers.
use nipxi.Prelude.{
  ℕ, zero, suc, refl, ◌+◌, ◌*◌, ◌≡◌, ◌∙◌, inl, inr, Bool, true, false, Option, List, [], ◌∷◌, leb,
  arith,
}
use nipxi.Prelude.Exec.{ok, Result-cases}
use nipxi.Prelude.Int.{ℤ}
use nipxi.Hardware.Smu.{Session}
use nipxi.Hardware.RelayEth.{Transport, open_channel, close_channel}
use nipxi.Hardware.RelayEth.Safety.{open_channel-AllOff}
use nipxi.Hardware.RelayEth.Safety
use nipxi.Safety.Guard.{Exception, StorageCall, Station, run_guarded}
use nipxi.Safety.Guard.Bookkeeping.{complete-drivers, complete-readings, run_guarded-ok}
use nipxi.Battery.Operation.{with_relay}
use nipxi.Battery.Scan.{
  DwellRound, ScanCourse, ScanPhase, open_before, open_after, take_readings, sample_dmm, closed,
  dwell_round, dwell_loop, scan_phase, scan_closed, monitor_dwell, scan_before, scan_between,
  scan_after, scan_one_position, scan_this_position, scan_positions, run_scan,
}

-- The rounds of a dwell that begin before its end.
abbrev pub dwell_rounds : ℕ → ℕ → List DwellRound → ℕ
dwell_rounds dwell_s elapsed [] = 0
dwell_rounds dwell_s elapsed (r ∷ rest) = elim (leb dwell_s elapsed) [
  | true ↦ 0
  | false ↦ suc (dwell_rounds dwell_s r.elapsed rest)
]

module _ {S T : Type 0} (dev : Session S) (net : Transport T) (settle_s samples dwell_s : ℕ) where
  take_readings-drivers :
      (raises : ℕ → Bool) (n : ℕ) (st : Station S T)
      → let (r, st') = take_readings dev net settle_s samples dwell_s raises n st in
        (st'.drivers ≡ st.drivers) × (r ≡ ok tt → st'.readings ≡ st.readings + n)
  unfolding take_readings
  take_readings-drivers raises zero st = (refl, λ h. ground arith)
  take_readings-drivers raises (suc n) st =
      let counted = record st { readings = suc st.readings } in
      (
        ground (arith, take_readings-drivers raises n counted),
        λ h. ground (arith, take_readings-drivers raises n counted),
      )

  sample_dmm-drivers :
      (raises : ℕ → Bool) (st : Station S T)
      → let (r, st') = sample_dmm dev net settle_s samples dwell_s raises st in
        (st'.drivers ≡ st.drivers) × (r ≡ ok tt → st'.readings ≡ st.readings + samples)
  unfolding sample_dmm
  sample_dmm-drivers raises st = (
    ground (arith, take_readings-drivers raises samples st),
    λ h. ground (arith, take_readings-drivers raises samples st),
  )

  dwell_round-drivers :
      (r : DwellRound) (st : Station S T)
      → let (x, st') = dwell_round dev net settle_s samples dwell_s r st in
        (st'.drivers ≡ st.drivers) × (x ≡ ok tt → st'.readings ≡ suc st.readings)
  unfolding dwell_round
  dwell_round-drivers r st = (ground arith, λ h. ground arith)

  dwell_loop-drivers :
      (elapsed n m : ℕ) (rounds : List DwellRound) (st : Station S T)
      → let (x, st') = dwell_loop dev net settle_s samples dwell_s elapsed n rounds st in
        x ≡ ok m
        → (m ≡ n + dwell_rounds dwell_s elapsed rounds)
          × (st'.drivers ≡ st.drivers)
          × (st'.readings ≡ st.readings + dwell_rounds dwell_s elapsed rounds)
  unfolding dwell_loop
  dwell_loop-drivers elapsed n m [] st h = ground arith
  dwell_loop-drivers elapsed n m (r ∷ rest) st h =
      let next = (dwell_round dev net settle_s samples dwell_s r st).1 in
      ground (arith, dwell_round-drivers r st, dwell_loop-drivers r.elapsed (suc n) m rest next)

  scan_phase-drivers :
      (c : ScanCourse) (phase : ScanPhase) (st : Station S T)
      → let (r, st') = scan_phase dev net settle_s samples dwell_s c phase st in
        (st'.drivers ≡ st.drivers) × (r ≡ ok tt → st'.readings ≡ st.readings + samples)
  unfolding scan_phase
  scan_phase-drivers c phase st = (
    ground (arith, sample_dmm-drivers (c.dmm_raises phase) st),
    λ h. ground (arith, sample_dmm-drivers (c.dmm_raises phase) st),
  )

  scan_closed-drivers :
      (c : ScanCourse) (st : Station S T)
      → let (r, st') = scan_closed dev net settle_s samples dwell_s c st in
        (st'.drivers ≡ st.drivers) × (r ≡ ok tt → st'.readings ≡ st.readings + samples)
  unfolding scan_closed
  scan_closed-drivers c st = (
    ground (arith, sample_dmm-drivers (c.dmm_raises closed) st),
    λ h. ground (arith, sample_dmm-drivers (c.dmm_raises closed) st),
  )

  monitor_dwell-drivers :
      (c : ScanCourse) (m : ℕ) (st : Station S T)
      → let (r, st') = monitor_dwell dev net settle_s samples dwell_s c st in
        r ≡ ok m
        → (m ≡ dwell_rounds dwell_s 0 c.dwell)
          × (st'.drivers ≡ st.drivers)
          × (st'.readings ≡ st.readings + m)
  unfolding monitor_dwell
  monitor_dwell-drivers c m st h = ground (arith, dwell_loop-drivers 0 0 m c.dwell st)

  -- Samples of one position, and of a scan.
  abbrev pub samples_of : ScanCourse → ℕ
  samples_of c = 3 * samples + dwell_rounds dwell_s 0 c.dwell

  abbrev pub samples_in : List ScanCourse → ℕ
  samples_in [] = 0
  samples_in (c ∷ cs) = samples_of c + samples_in cs

  module _ (energized : T → ℕ) (truthful : Safety.IsTruthful net energized) where
    -- What a scan of some positions leaves: the SMU as it was, and every relay off if there were any.
    abbrev pub IsScanned : List ScanCourse → Station S T → Station S T → Type 0
    IsScanned [] st st' = st'.drivers ≡ st.drivers
    IsScanned (_ ∷ _) st st' =
        (st'.drivers.smu ≡ st.drivers.smu) × (energized st'.drivers.relay.module_state ≡ 0)

    scan_before-smu :
        (c : ScanCourse) (st : Station S T)
        → let (r, st') = scan_before dev net settle_s samples dwell_s c st in
          (st'.drivers.smu ≡ st.drivers.smu) × (r ≡ ok tt → st'.readings ≡ st.readings + samples)
    unfolding scan_before
    scan_before-smu c st =
        let opened = (open_channel net settle_s c.relay_address st.drivers.relay).1 in
        (
          ground (arith, scan_phase-drivers c open_before (with_relay opened st)),
          λ h. ground (arith, scan_phase-drivers c open_before (with_relay opened st)),
        )

    scan_between-smu :
        (c : ScanCourse) (n : ℕ) (st : Station S T)
        → let (r, st') = scan_between dev net settle_s samples dwell_s c st in
          r ≡ ok n
          → (n ≡ dwell_rounds dwell_s 0 c.dwell)
            × (st'.drivers.smu ≡ st.drivers.smu)
            × (st'.readings ≡ st.readings + samples + n)
    unfolding scan_between
    scan_between-smu c n st h =
        let connected =
          with_relay (close_channel net settle_s c.relay_address st.drivers.relay).1 st in
        let measured = (scan_closed dev net settle_s samples dwell_s c connected).1 in
        ground (arith, scan_closed-drivers c connected, monitor_dwell-drivers c n measured)

    scan_after-AllOff :
        (c : ScanCourse) (st : Station S T)
        → let (r, st') = scan_after dev net settle_s samples dwell_s c st in
          r ≡ ok tt
          → (st'.drivers.smu ≡ st.drivers.smu)
            × (energized st'.drivers.relay.module_state ≡ 0)
            × (st'.readings ≡ st.readings + samples)
    unfolding scan_after
    scan_after-AllOff c st h =
        let relay = st.drivers.relay in
        let opened = (open_channel net settle_s c.relay_address relay).1 in
        ground (
          arith,
          (open_channel-AllOff net energized truthful settle_s c.relay_address relay).0,
          scan_phase-drivers c open_after (with_relay opened st),
        )

    scan_this_position-IsScanned :
        (c : ScanCourse) (n : ℕ) (st : Station S T)
        → let (r, st') = scan_this_position dev net settle_s samples dwell_s c st in
          r ≡ ok n
          → (n ≡ samples_of c)
            × (st'.drivers.smu ≡ st.drivers.smu)
            × (energized st'.drivers.relay.module_state ≡ 0)
            × (st'.readings ≡ st.readings + n)
    unfolding scan_this_position scan_one_position
    scan_this_position-IsScanned c n st h =
        let before = (scan_before dev net settle_s samples dwell_s c st).1 in
        let (r, between) = scan_between dev net settle_s samples dwell_s c before in
        elim (Result-cases r) [
          | inr (e, failed) ↦ ground arith
          | inl (m, dwelt) ↦ ground (
            arith,
            scan_before-smu c st,
            scan_between-smu c m before,
            scan_after-AllOff c between,
          )
        ]

    IsScanned-cons :
        (c : ScanCourse) (cs : List ScanCourse) (st mid st' : Station S T)
        → (mid.drivers.smu ≡ st.drivers.smu)
        → (energized mid.drivers.relay.module_state ≡ 0)
        → IsScanned cs mid st'
        → IsScanned (c ∷ cs) st st'
    IsScanned-cons c [] st mid st' e off h = ground arith
    IsScanned-cons c (_ ∷ _) st mid st' e off h = (h.0 ∙ e, h.1)

    scan_positions-IsScanned :
        (storage : StorageCall → Option Exception) (v : Option ℤ) (total n : ℕ)
        (cs : List ScanCourse) (st : Station S T)
        → let (r, st') = scan_positions dev net settle_s samples dwell_s storage v total cs st in
          r ≡ ok n
          → (n ≡ total + samples_in cs)
            × (st'.readings ≡ st.readings + samples_in cs)
            × IsScanned cs st st'
    unfolding scan_positions
    scan_positions-IsScanned storage v total n [] st h = ground arith
    scan_positions-IsScanned storage v total n (c ∷ cs) st h =
        let fn = scan_this_position dev net settle_s samples dwell_s c in
        let guarded = run_guarded dev net storage v fn st in
        elim (Result-cases guarded.0) [
          | inr (e, failed) ↦ ground arith
          | inl (m, scanned) ↦ ground (
            arith,
            run_guarded-ok dev net storage v fn st m,
            scan_this_position-IsScanned c m st,
            scan_positions-IsScanned storage v (total + m) n cs guarded.1,
            IsScanned-cons c cs st guarded.1
                (scan_positions dev net settle_s samples dwell_s storage v (total + m) cs
                  guarded.1).1,
          )
        ]

    IsScanned-then :
        (cs : List ScanCourse) (st mid st' : Station S T)
        → IsScanned cs st mid
        → st'.drivers ≡ mid.drivers
        → IsScanned cs st st'
    IsScanned-then [] st mid st' h e = e ∙ h
    IsScanned-then (_ ∷ _) st mid st' h e = ground arith

    -- When the readback is truthful: a scan that returns has taken of the DMM three times the readings
    -- that a phase asks for at each position and one in each round of its dwell that begins before the end of
    -- the dwell, and completes with their number; it has left the SMU as it was, and, unless no position was
    -- asked for, leaves every relay off.
    pub run_scan-IsScanned :
        (storage : StorageCall → Option Exception) (v : Option ℤ) (start_raises : Bool) (n : ℕ)
        (cs : List ScanCourse) (st : Station S T)
        → (run_scan dev net settle_s samples dwell_s storage v start_raises cs st).0 ≡ ok n
        → let st' = (run_scan dev net settle_s samples dwell_s storage v start_raises cs st).1 in
          (n ≡ samples_in cs) × (st'.readings ≡ st.readings + samples_in cs) × IsScanned cs st st'
    unfolding run_scan
    run_scan-IsScanned storage v start_raises n cs st h =
        let scanned = (scan_positions dev net settle_s samples dwell_s storage v 0 cs st).1 in
        ground (
          arith,
          scan_positions-IsScanned storage v 0 n cs st,
          complete-drivers dev net storage v scanned,
          complete-readings dev net storage v scanned,
          IsScanned-then cs st scanned
              (run_scan dev net settle_s samples dwell_s storage v start_raises cs st).1,
        )
