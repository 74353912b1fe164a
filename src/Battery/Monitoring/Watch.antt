-- ===== src/Battery/Monitoring/Watch.antt =====
-- test_control/monitor_battery_sequence.py: what is recorded, what the statistics say of it, and that
-- only an exception ends the run.
use nipxi.Prelude.{
  ℕ, ◌≡◌, ◌≢◌, refl, inl, inr, Option-cases, Bool, true, false, not, ◌&&◌, Option, none, some, List,
  [], ◌∷◌, arith,
}
use nipxi.Prelude.Exec.{ok}
use nipxi.Prelude.Int.{ℤ, ltb_ℤ}
use nipxi.Hardware.Smu.{Session}
use nipxi.Hardware.RelayEth.{Transport}
use nipxi.Safety.Monitor.{SafetyMonitor}
use nipxi.Safety.Guard.{Exception, StorageCall, Station, Op}
use nipxi.Safety.Guard.Bookkeeping.{run_guarded-ok}
use nipxi.Battery.Temperature.{NtcPresence}
use nipxi.Battery.Monitoring.{
  VoltageStats, MonitorRound, MonitorEntry, Watched, add_voltage, monitor_loop, state_of,
  is_safe_temperature, watch, run_monitor,
}

-- The voltage lies between the least and the greatest of the statistics.
abbrev pub not_above : Option ℤ → ℤ → Bool
not_above none v = false
not_above (some m) v = not (ltb_ℤ v m)

abbrev pub not_below : Option ℤ → ℤ → Bool
not_below none v = false
not_below (some m) v = not (ltb_ℤ m v)

abbrev pub spans : VoltageStats → ℤ → Bool
spans s v = not_above s.min_voltage v && not_below s.max_voltage v

add_voltage-spans :
    (o : Option ℤ) (s : VoltageStats) (v : ℤ) → spans s v ≡ true → spans (add_voltage o s) v ≡ true
unfolding add_voltage
add_voltage-spans none s v h = h
add_voltage-spans (some w) s v h = ground arith

add_voltage-itself : (v : ℤ) (s : VoltageStats) → spans (add_voltage (some v) s) v ≡ true
unfolding add_voltage
add_voltage-itself v s = ground arith

module _ (beta : ℤ → ℤ) (monitor : SafetyMonitor) where
  -- Every sample was taken at a safe temperature, and lies within the statistics.
  abbrev pub all_within : VoltageStats → List Watched → Bool
  all_within s [] = true
  all_within s (w ∷ ws) =
      is_safe_temperature beta monitor w.temp_c && spans s w.voltage && all_within s ws

  monitor_loop-spans :
      (last : Option NtcPresence) (s : VoltageStats) (rounds : List MonitorRound) (v : ℤ)
      → spans s v ≡ true
      → spans (monitor_loop beta monitor last s rounds).stats v ≡ true
  unfolding monitor_loop
  monitor_loop-spans last s [] v h = h
  monitor_loop-spans last s (r ∷ rs) v h =
      let s' = add_voltage r.dmm_voltage s in
      ground (
        arith,
        add_voltage-spans r.dmm_voltage s v,
        monitor_loop-spans (state_of beta monitor last r.ntc) s' rs v,
      )

  -- Every sample that the loop records was taken at a temperature that the monitor finds safe, or
  -- without one, and its voltage lies between the least and the greatest of the final statistics.
  pub monitor_loop-all_within :
      (last : Option NtcPresence) (s : VoltageStats) (rounds : List MonitorRound)
      → let o = monitor_loop beta monitor last s rounds in all_within o.stats o.recorded ≡ true
  unfolding monitor_loop
  monitor_loop-all_within last s [] = refl
  monitor_loop-all_within last s (r ∷ rs) = elim (Option-cases r.dmm_voltage) [
    | inl none_read ↦ ground arith
    | inr (v, read) ↦
        let s' = add_voltage (some v) s in
        let next = state_of beta monitor last r.ntc in
        ground (
          arith,
          add_voltage-itself v s,
          monitor_loop-spans next s' rs v,
          monitor_loop-all_within next s' rs,
        )
  ]

module _ {S T : Type 0} (dev : Session S) (net : Transport T) (beta : ℤ → ℤ)
    (monitor : SafetyMonitor) (settle_s relay_address : ℕ) (cancelled_before : Bool)
    (storage_raises : MonitorEntry → Bool) (rounds : List MonitorRound) where
  abbrev Watching : Op S T (Unit {0})
  Watching =
      watch dev net beta monitor settle_s relay_address cancelled_before storage_raises rounds

  watch-ne-ok : (st : Station S T) → (Watching st).0 ≢ ok tt
  unfolding watch
  watch-ne-ok st h = ground arith

  -- Monitoring never returns, it ends by an exception; and until that is handled it has not touched
  -- the SMU.
  pub run_monitor-ne-ok :
      (storage : StorageCall → Option Exception) (v : Option ℤ) (st : Station S T)
      → ((run_monitor dev net beta monitor settle_s relay_address cancelled_before storage_raises
            rounds storage v st).0
          ≢ ok tt)
        × ((watch dev net beta monitor settle_s relay_address cancelled_before storage_raises rounds
              st).1.drivers.smu
            ≡ st.drivers.smu)
  unfolding run_monitor watch
  run_monitor-ne-ok storage v st =
      (λ h. watch-ne-ok st (run_guarded-ok dev net storage v Watching st tt h).0, ground arith)
