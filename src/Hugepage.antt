-- ===== src/Hugepage.antt =====
-- The huge pages that the layer takes its memory from: the parts of lib/linuxapp/eal/eal_memory.c
-- that compute with them, and lib/common/eal_common_memory.c. The mapping of the pages is left to
-- the system.
pub mod Types
pub mod Pages
pub mod Share
pub mod Wanted
pub mod Shared
pub mod Served
pub mod Segments
pub mod Contiguous
pub mod Joined
pub mod Thinned
pub mod Kept
pub mod Copied
mod Tests
