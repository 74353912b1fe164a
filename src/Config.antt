-- ===== src/Config.antt =====
-- config/ and utils/validators.py: what is checked of the configuration before hardware is touched.
pub mod SystemMode
pub mod Devices
pub mod GroupTest
pub mod Shipped
mod ConfigTests
