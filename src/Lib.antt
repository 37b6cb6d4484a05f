-- ===== src/Lib.antt =====
-- A verification library for the environment abstraction layer, the ring and the memory pool under
-- lib/ of the repository.
--
-- The parts and how they interact. The words of lib/common/include/rte_common.h and rte_memory.h
-- (rounding, powers of two) are used by all the others. The ring of lib/librte_ring is a lock-free
-- queue of pointers in a table whose length is a power of two: rte_ring.c computes its size and
-- initialises it, rte_ring.h has the operations, and rte_ring_generic.h the updates of the heads
-- and tails on which the operations stand. The locks of
-- lib/common/include/generic guard the heap and the tables of the layer. lib/common/malloc_elem.c
-- cuts the memory segments of a heap into elements, and lib/common/eal_common_memzone.c gives names
-- to blocks of the heaps. The memory pool of lib/librte_mempool keeps
-- its free objects in a ring through lib/driver/ring.
--
-- Which file models which part:
--   Prelude, Prelude/Tests, Prelude/Lists, Prelude/Bags, Prelude/Names: the library names that the
--     others share, Boolean tests, lists, the weight of the objects in a list, equality of names.
--   Word: RTE_ALIGN_FLOOR, RTE_ALIGN_CEIL, rte_is_power_of_2, rte_align32pow2 and
--     rte_align64pow2 of lib/common/include/rte_common.h, RTE_CACHE_LINE_ROUNDUP of
--     lib/common/include/rte_memory.h. Proofs in Word/Bits, Word/Align, Word/Pow2, Word/Smear.
--   Ring/Types: struct rte_ring, struct rte_ring_headtail. The table of objects that follows the
--     structure in memory is the field `slots`; an object is an address.
--   Ring/Copy: ENQUEUE_PTRS and DEQUEUE_PTRS. Proofs in Ring/CopyLaws and Ring/Table.
--   Ring/Transfer: update_tail, __rte_ring_move_prod_head, __rte_ring_move_cons_head
--     (rte_ring_generic.h), __rte_ring_do_enqueue and __rte_ring_do_dequeue (rte_ring.h).
--   Ring/Api: the public enqueue, dequeue and count functions of rte_ring.h.
--   Ring/Setup: rte_ring_get_memsize and rte_ring_init of rte_ring.c. Ring/Registry: rte_ring_create,
--     rte_ring_free and rte_ring_lookup; proofs in the modules below it.
--   Ring/Queue: the bounded queue that a ring stands for. Ring/Invariant: the representation
--     invariant and the contents of a ring, with Ring/Window for the slots in order.
--   Ring/Concurrent: the multi-producer and multi-consumer paths of rte_ring_generic.h and rte_ring.h
--     as a step relation, one access of the shared memory at a time, with any number of threads. Proofs
--     in the modules below it: Ranges and Owners (what a thread owns), Acts, Swaps, Copies and Order
--     (one access), Reached.
--   Ring/Heads, Ring/Enqueue, Ring/Dequeue, Ring/Counts, Ring/Single, Ring/Client, Ring/Fresh,
--     Ring/Sizes: proofs, each named for what it is about.
--   Lock/Rwlock: lib/common/include/generic/rte_rwlock.h as a step relation: each step is one
--     atomic access of one of the threads. Proofs in Lock/Rwlock/Exclusion.
--   Lock/Spinlock: the recursive spinlock of lib/common/include/generic/rte_spinlock.h on the
--     exchange instructions of lib/common/include/arch/x86/rte_spinlock.h, as a step relation.
--     Proofs in Lock/Spinlock/Owners (one access), Threads (the others) and Exclusion.
--   Malloc/Types: struct malloc_elem and struct malloc_heap. A header is found by its address; a free
--     list is the list of the addresses of its elements. Malloc/Fit: elem_start_pt. Malloc/FreeList:
--     the index, LIST_INSERT_HEAD and LIST_REMOVE. Malloc/Elem: the other operations of
--     lib/common/malloc_elem.c. Proofs in Malloc/Start, Malloc/Index, Malloc/Cut,
--     Malloc/Listed (the free lists), Malloc/Grown and Malloc/Resize. Malloc/Heap: check_hugepage_sz,
--     find_suitable_element and malloc_heap_alloc of lib/common/malloc_heap.c; the page sizes of the segments are a parameter. Proof in
--     Malloc/Search.
--   Malloc/Sockets: the rest of lib/common/malloc_heap.c, and lib/common/rte_malloc.c.
--   Memzone/Types, Memzone/Reserve: lib/common/eal_common_memzone.c, on the heaps; a zone is known by
--     its index in the table. Proofs in Memzone/Names, Reserved and Freed.
--   Mempool/Store: what a pool asks of struct rte_mempool_ops of lib/librte_mempool/rte_mempool.h, and
--     its promises as a record of laws. Mempool/Types: struct rte_mempool and struct
--     rte_mempool_memhdr. Mempool/Cache: struct rte_mempool_cache, __mempool_generic_put and
--     __mempool_generic_get on the store and the cache of one core; proofs in Mempool/Splice, Put, Get
--     and Refill. Mempool/Api: put, get, the counts and the audit on a pool with all its caches; the
--     core that calls is an argument. Proofs in Mempool/Whole, Calls and Counts. The invariants weigh
--     objects: an equation for every weight says that no object is lost and none is there twice.
--   Mempool/Ops: lib/librte_mempool/rte_mempool_ops.c, proof in Mempool/Named.
--   Tailq: lib/common/eal_common_tailqs.c, proof in Tailq/Registered. Tailq/Entries: the lists of
--     struct rte_tailq_entry.
--   Hugepage/Types: struct hugepage_file, struct hugepage_info. Hugepage/Pages, Hugepage/Share,
--     Hugepage/Segments: the loops of lib/linuxapp/eal/eal_memory.c that compute with the huge pages.
--     Proofs in Hugepage/Shared and Served (what the sockets give, in the words of Wanted), Thinned and
--     Kept (the pages that are kept), Copied (the shared table), Contiguous and Joined (the segments).
--   Log: the types and levels of lib/common/eal_common_log.c; Log/Initial: the table of rte_log_init.
--     Proofs in Log/Registered and Log/Levels.
--   Mempool/Driver: lib/driver/ring/rte_mempool_ring.c; Mempool/Rings: a ring keeps the promises of
--     the store.
--   Mempool/Sizes: get_gcd, optimize_object_size, rte_mempool_calc_obj_size and rte_mempool_xmem_size
--     of lib/librte_mempool/rte_mempool.c. The loop of get_gcd has one round more than its second
--     argument, which the remainders cannot exceed; the search for a size needs at most as many
--     rounds as there are channels times ranks. Mempool/Populate: rte_mempool_populate_phy,
--     rte_mempool_free_memchunks and the iterators; the loop needs more rounds than objects are
--     missing. Proofs in the modules below them.
--
-- Conventions. `uint32_t` and `size_t` arithmetic wraps at 2 ^ 32 and 2 ^ 64, written out. An error
-- number is a value of a result type. `none` stands for a loop that does not end: the loops of the
-- head updates run on a number of rounds, of which one is enough when no other thread works on the
-- ring, and the wait of update_tail ends at once where the tail is the old head.
--
-- The concurrent ring keeps its heads and tails as totals, of which the program sees the words; a
-- thread between its read of a head and its swap is taken not to be overtaken by 2 ^ 32 objects.
--
-- Not modelled: memory barriers (the model is sequentially consistent), the variant of the
-- ring in rte_ring_c11_mem.h, which is not compiled, printing, the system calls and the
-- processor's vector instructions. The registry of pools and their creation over the memory zones
-- have no model yet, nor has most of the start-up of the layer.
pub mod Hugepage
pub mod Lock
pub mod Log
pub mod Malloc
pub mod Mempool
pub mod Memzone
pub mod Prelude
pub mod Ring
pub mod Tailq
pub mod Word
