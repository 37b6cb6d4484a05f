-- ===== src/Memzone.antt =====
-- The memory zones of lib/common/eal_common_memzone.c: named blocks of the heaps.
pub mod Types
pub mod Reserve
pub mod Names
pub mod Reserved
pub mod Freed
mod Tests
