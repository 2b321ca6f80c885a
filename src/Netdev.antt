-- ===== src/Netdev.antt =====
-- examples/30_netdev: two network interfaces wired to each other.
pub mod Device
pub mod Steps
pub mod Threads
pub mod Buffers
pub mod Work
pub mod Covering
pub mod Frame
pub mod Polling
pub mod Stranded
pub mod Created
pub mod Frames
mod Tests
