-- ===== src/Safety/Monitor/Limits.antt =====
-- test_control/safety_monitor.py: the limit of the current.
use nipxi.Prelude.{none, some, arith}
use nipxi.Prelude.Int.{◌≤ℤ◌}
use nipxi.Safety.Monitor.{SafetyMonitor, Mode, charge, discharge, current_max}

-- Leaving the mode out never allows more current than naming either mode.
pub current_max_least :
    (m : SafetyMonitor) (mode : Mode) → current_max none m ≤ℤ current_max (some mode) m
unfolding current_max
current_max_least m charge = ground arith
current_max_least m discharge = ground arith
