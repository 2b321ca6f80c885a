-- ===== src/Io.antt =====
-- tools/qemu/hw/ldd/io.c: the ldd-io device.
pub mod State
pub mod Panel
pub mod Output
pub mod Device
pub mod Machine
pub mod Frame
pub mod Keyboard
pub mod Stream
pub mod Held
pub mod Viewer
pub mod Matrix
pub mod Invariant
mod Tests
