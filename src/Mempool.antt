-- ===== src/Mempool.antt =====
-- The memory pool of lib/librte_mempool, and its driver lib/driver/ring.
pub mod Store
pub mod Cache
pub mod Splice
pub mod Types
pub mod Api
pub mod Put
pub mod Get
pub mod Refill
pub mod Whole
pub mod Calls
pub mod Counts
pub mod Sizes
pub mod Populate
pub mod Ops
pub mod Named
pub mod Driver
pub mod Rings
mod Tests
