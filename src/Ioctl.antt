-- ===== src/Ioctl.antt =====
-- examples/07_ioctl/fops.c: a message that is read a settable number of times.
pub mod Device
pub mod Repeat
pub mod Commands
mod Tests
