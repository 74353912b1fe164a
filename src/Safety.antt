-- ===== src/Safety.antt =====
-- test_control/ and utils/cancellation.py: the limits of a measurement, the shutdown of the bench,
-- guarded operations and interrupted waits.
pub mod Monitor
pub mod EmergencyStop
pub mod Guard
pub mod ChargeCycle
pub mod Cancellation
pub mod SafetyTests
mod ChargeTests
mod WaitTests
