-- ===== src/Setup.antt =====
-- The set-up and the removal of the drivers of examples/, and what they hold of the kernel.
pub mod Ledger
pub mod Short
pub mod Files
pub mod Pci
pub mod Loops
pub mod Parts
pub mod Drivers
mod Tests
