-- ===== src/Tty.antt =====
-- examples/31_tty/main.c: the line buffer of the terminal driver.
pub mod Device
pub mod Buffer
pub mod Lines
mod Tests
