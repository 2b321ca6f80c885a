-- ===== src/Sg.antt =====
-- examples/28_dma_sg: the driver that moves data between the device ldd-pcie and the user's pages.
pub mod Device
pub mod Table
pub mod Started
pub mod Transfers
pub mod RoundTrip
pub mod Guarded
pub mod Bounds
mod Tests
