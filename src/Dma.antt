-- ===== src/Dma.antt =====
-- examples/27_dma: the driver that moves data to and from the device ldd-pcie by DMA.
pub mod Device
pub mod Calls
pub mod Setup
pub mod Started
pub mod Finished
pub mod Transfers
pub mod Moved
pub mod File
pub mod RoundTrip
pub mod Plain
mod Tests
pub mod Timeout
