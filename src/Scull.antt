-- ===== src/Scull.antt =====
-- examples/03_scull_basic: the memory-backed character device.
pub mod Device
pub mod Blocks
pub mod Cells
pub mod Write
pub mod Read
pub mod Loops
pub mod Store
pub mod Copy
mod Tests
