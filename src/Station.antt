-- ===== src/Station.antt =====
-- test_control/hardware_manager.py and safety_sweep.py: the devices of one workflow, and
-- all devices and the configuration tables at startup.
pub mod HardwareManager
pub mod SafetySweep
pub mod DeviceValidator
mod StationTests
mod ValidatorTests
