-- ===== src/Msi.antt =====
-- examples/26_msi_interrupt: the driver that counts the events of the device ldd-pcie.
pub mod Device
pub mod Bits
pub mod Counted
pub mod Beyond
pub mod Events
mod Tests
