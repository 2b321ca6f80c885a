-- ===== src/Pipe.antt =====
-- examples/09_pipe_advanced_sleep: a pipe whose readers and writers sleep.
pub mod Device
pub mod Order
pub mod Threads
pub mod Wake
mod Tests
