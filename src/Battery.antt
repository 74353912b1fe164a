-- ===== src/Battery.antt =====
-- test_control/: charging and discharging one battery position.
pub mod Diagnostics
pub mod Temperature
pub mod Sampling
pub mod Operation
pub mod Cycle
pub mod Precheck
pub mod Scan
pub mod ProtoTest
pub mod Monitoring
mod BatteryTests
mod EnergizingTests
mod PrecheckTests
mod ScanTests
mod ProtoTests
mod MonitoringTests
