-- ===== src/Hardware.antt =====
-- hardware/: the drivers of the source measure unit and of the relay matrix, and the sense channels.
pub mod Smu
pub mod RelayEth
pub mod SenseRouter
pub mod DeviceTests
pub mod SourcingTests
mod SenseTests
