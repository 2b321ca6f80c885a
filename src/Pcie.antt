-- ===== src/Pcie.antt =====
-- tools/qemu/hw/ldd/pcie.c: the ldd-pcie device.
pub mod State
pub mod Irq
pub mod Transfer
pub mod Bar0
pub mod Frame
pub mod Machine
pub mod Invariant
pub mod Signals
pub mod Edges
pub mod Reached
pub mod Verdict
pub mod Checks
pub mod Copy
pub mod Engine
pub mod Registers
pub mod Limits
pub mod TotalRam
mod Tests
