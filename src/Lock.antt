-- ===== src/Lock.antt =====
-- The locks of lib/common/include/generic, taken by any number of threads.
pub mod Rwlock
pub mod Spinlock
mod Tests
