-- ===== src/Malloc.antt =====
-- The elements into which a heap cuts its segments, and the search for one: lib/common/malloc_elem.h,
-- lib/common/malloc_elem.c and lib/common/malloc_heap.c.
pub mod Types
pub mod Fit
pub mod FreeList
pub mod Elem
pub mod Start
pub mod Index
pub mod Cut
pub mod Listed
pub mod Grown
pub mod Resize
pub mod Heap
pub mod Search
pub mod Sockets
mod Tests
