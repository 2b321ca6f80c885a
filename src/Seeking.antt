-- ===== src/Seeking.antt =====
-- examples/12_seeking/fops.c: a table that is read in a circle.
pub mod Device
pub mod Circle
mod Tests
