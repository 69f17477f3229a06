-- ===== src/Mempool.antt =====
-- The memory pool of threadpool/src4/mempool/memorypool.cpp.
pub mod Page
pub mod Alloc
pub mod Blocks
pub mod Init
pub mod Turns
pub mod Clients
mod Tests
