-- ===== src/Block.antt =====
-- examples/29_block_device: a RAM disk behind the block layer.
pub mod Device
pub mod Walks
pub mod Contents
mod Tests
