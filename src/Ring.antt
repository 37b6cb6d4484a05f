-- ===== src/Ring.antt =====
-- lib/librte_ring: the ring of object pointers, its operations, and the bounded queue that it
-- implements.
pub mod Types
pub mod Copy
pub mod CopyLaws
pub mod Window
pub mod Table
pub mod Transfer
pub mod Api
pub mod Queue
pub mod Invariant
pub mod Heads
pub mod Enqueue
pub mod Dequeue
pub mod Counts
pub mod Registry
pub mod Concurrent
pub mod Single
pub mod Client
pub mod Setup
pub mod Fresh
pub mod Sizes
mod Tests
