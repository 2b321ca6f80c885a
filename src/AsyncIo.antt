-- ===== src/AsyncIo.antt =====
-- examples/25_async_io: a ring buffer with asynchronous requests.
pub mod Device
pub mod Ring
pub mod Calls
pub mod Answers
pub mod Fifo
mod Tests
