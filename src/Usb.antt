-- ===== src/Usb.antt =====
-- tools/qemu/hw/ldd/usb.c: the ldd-usb device.
pub mod Device
pub mod Ticks
mod Tests
