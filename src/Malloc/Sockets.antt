-- ===== src/Malloc/Sockets.antt =====
-- The rest of lib/common/malloc_heap.c, and lib/common/rte_malloc.c: segments, statistics, and the
-- functions that a program allocates with. Only headers are in the memory: that a block handed out
-- holds zeros rests on malloc_elem_free, and of a move the number of bytes copied is kept.
use rte_demo.Prelude.{
  take, ℕ, ◌+◌, ◌-◌, ◌*◌, ◌%◌, ◌^◌, List, [], ◌∷◌, get_or, Option, none, some, Bool, not, ◌&&◌,
  ◌||◌, ltb, leb, ◌==◌, if◌then◌else◌,
}
use rte_demo.Word.{add32, add64, sub64, align_floor, align_ceil, is_power_of_2, cache_line_roundup}
use rte_demo.Ring.Transfer.{◌>>=◌}
use rte_demo.Malloc.Types.{
  elem_free, elem_busy, elem_pad, Memory, set_heap, header_len, elem_overhead,
}
use rte_demo.Malloc.FreeList.{free_list_insert}
use rte_demo.Malloc.Elem.{elem_init, elem_mkend, elem_free_call, elem_resize}
use rte_demo.Malloc.Heap.{heap_alloc}

-- `RTE_MAX_NUMA_NODES`, and `SOCKET_ID_ANY` as a word of 32 bits.
abbrev pub max_numa_nodes : ℕ
max_numa_nodes = 8

abbrev pub socket_id_any : ℕ
socket_id_any = 2 ^ 32 - 1

-- What the functions read of the configuration: `rte_eal_has_hugepages`, `rte_socket_id` of the
-- calling thread, the addresses of `malloc_heaps`, and the page size and the socket of a segment.
pub record Layer : Type 0 where
  pub has_hugepages : Bool
  pub socket_id : ℕ
  pub malloc_heaps : List ℕ
  pub hugepage_sz : ℕ → ℕ
  pub socket_of : ℕ → ℕ

-- `malloc_get_numa_socket`
unfoldable pub get_numa_socket : Layer → ℕ
get_numa_socket layer = if layer.socket_id == socket_id_any then 0 else layer.socket_id

-- `malloc_heap_add_memseg` for the segment `ms` at `addr`.
unfoldable pub add_memseg : Memory → (heap ms addr len : ℕ) → Memory
add_memseg m heap ms addr len =
    let end_elem = align_floor 64 32 (add64 addr (sub64 len elem_overhead)) 64 in
    let elem_size = sub64 end_elem addr in
    let m' =
      free_list_insert (elem_mkend (elem_init m addr heap ms elem_size) end_elem addr) addr in
    let h = m'.heap_at heap in
    set_heap m' heap (record h { total_size = add64 h.total_size elem_size })

-- What `rte_eal_malloc_heap_init` reads of a segment, and `RTE_MAX_MEMSEG`.
pub record Memseg : Type 0 where
  pub addr : ℕ
  pub len : ℕ
  pub socket_id : ℕ

abbrev pub max_memseg : ℕ
max_memseg = 256

-- The loop of `rte_eal_malloc_heap_init`, over the segments from the index `ms` on.
unfoldable pub add_memsegs : Layer → Memory → List Memseg → (ms : ℕ) → Memory
unfolding add_memseg
add_memsegs layer m [] ms = m
add_memsegs layer m (seg ∷ segs) ms =
    let added = add_memseg m (get_or layer.malloc_heaps seg.socket_id 0) ms seg.addr seg.len in
    let rest = add_memsegs layer added segs (ms + 1) in if seg.len == 0 then m else rest

unfoldable pub heap_init : Layer → Memory → List Memseg → Memory
unfolding add_memsegs
heap_init layer m memseg = add_memsegs layer m (take max_memseg memseg) 0

-- `struct rte_malloc_socket_stats`
pub record Stats : Type 0 where
  pub heap_totalsz_bytes : ℕ
  pub heap_freesz_bytes : ℕ
  pub greatest_free_size : ℕ
  pub free_count : ℕ
  pub alloc_count : ℕ
  pub heap_allocsz_bytes : ℕ

-- The loops of `malloc_heap_get_stats`.
unfoldable pub count_list : Memory → List ℕ → Stats → Stats
count_list m [] s = s
count_list m (elem ∷ elems) s =
    let size = (m.elem_at elem).size in
    count_list m elems (record s {
      free_count = add32 s.free_count 1;
      heap_freesz_bytes = add64 s.heap_freesz_bytes size;
      greatest_free_size = if ltb s.greatest_free_size size then size else s.greatest_free_size;
    })

unfoldable pub count_lists : Memory → List (List ℕ) → Stats → Stats
unfolding count_list
count_lists m [] s = s
count_lists m (l ∷ ls) s = count_lists m ls (count_list m l s)

unfoldable pub heap_get_stats : Memory → ℕ → Stats
unfolding count_lists
heap_get_stats m heap =
    let h = m.heap_at heap in
    let found = count_lists m h.free_head (record {
      heap_totalsz_bytes = 0;
      heap_freesz_bytes = 0;
      greatest_free_size = 0;
      free_count = 0;
      alloc_count = 0;
      heap_allocsz_bytes = 0;
    }) in
    record found {
      heap_totalsz_bytes = h.total_size;
      heap_allocsz_bytes = sub64 h.total_size found.heap_freesz_bytes;
      alloc_count = h.alloc_count;
    }

-- "try other heaps": `call` is the allocation from the heap at an address; 0 stands for NULL.
unfoldable pub try_heaps :
    (Memory → ℕ → Memory × ℕ) → (socket : ℕ) → List ℕ → ℕ → Memory → Memory × ℕ
try_heaps call socket [] i m = (m, 0)
try_heaps call socket (heap ∷ heaps) i m =
    let attempt = if i == socket then (m, 0) else call m heap in
    let rest = try_heaps call socket heaps (i + 1) attempt.0 in
    if attempt.1 == 0 then rest else attempt

abbrev pub bad_align : ℕ → Bool
bad_align align = not (align == 0) && not (is_power_of_2 align)

-- `rte_malloc_socket`; a `socket_arg` that is negative in C and not SOCKET_ID_ANY indexes before the
-- array there, and is refused here.
unfoldable pub malloc_socket : Layer → Memory → (size align socket_arg : ℕ) → Memory × ℕ
unfolding get_numa_socket try_heaps
malloc_socket layer m size align socket_arg =
    let wanted = if layer.has_hugepages then socket_arg else socket_id_any in
    let socket = if wanted == socket_id_any then get_numa_socket layer else wanted in
    let call : Memory → ℕ → Memory × ℕ =
      λ m heap. heap_alloc layer.hugepage_sz m heap size 0 (if align == 0 then 1 else align) 0 in
    let first = call m (get_or layer.malloc_heaps socket 0) in
    let others = try_heaps call socket layer.malloc_heaps 0 first.0 in
    if size == 0 || bad_align align
    then (m, 0)
    else if leb max_numa_nodes socket
    then (m, 0)
    else if not (first.1 == 0) || not (wanted == socket_id_any)
    then first
    else others

-- `rte_malloc`; `rte_zmalloc` and `rte_zmalloc_socket` only pass their arguments on.
unfoldable pub malloc : Layer → Memory → (size align : ℕ) → Memory × ℕ
unfolding malloc_socket
malloc layer m size align = malloc_socket layer m size align socket_id_any

-- `rte_calloc_socket` and `rte_calloc`: the product is a `size_t`.
unfoldable pub calloc_socket : Layer → Memory → (num size align socket : ℕ) → Memory × ℕ
unfolding malloc_socket
calloc_socket layer m num size align socket =
    malloc_socket layer m (num * size % 2 ^ 64) align socket

-- `malloc_elem_from_data`, 0 for NULL.
unfoldable pub elem_from_data : Memory → ℕ → ℕ
elem_from_data m data' =
    let elem = sub64 data' header_len in
    let e = m.elem_at elem in
    if data' == 0
    then 0
    else elim e.state [ elem_pad ↦ sub64 elem e.pad | elem_free ↦ elem | elem_busy ↦ elem ]

-- `rte_free`: `none` where it panics.
unfoldable pub free : Memory → ℕ → Option Memory
unfolding elem_from_data
free m addr =
    let (freed, m') = elem_free_call m (elem_from_data m addr) in
    if addr == 0 then some m else if freed then some m' else none

-- `rte_realloc`: the memory, the address, and the number of bytes that are copied to it.
pub record Moved : Type 0 where
  pub memory : Memory
  pub ptr : ℕ
  pub copied : ℕ

abbrev pub move : Memory → (elem ptr size new_ptr : ℕ) → Option Moved
move m elem ptr size new_ptr =
    let old_size = sub64 (m.elem_at elem).size elem_overhead % 2 ^ 32 in
    let moved = do
      m' ← free m ptr
      some (record {
        memory = m';
        ptr = new_ptr;
        copied = if ltb old_size size then old_size else size;
      })
    in if new_ptr == 0 then some (record { memory = m; ptr = 0; copied = 0 }) else moved

unfoldable pub realloc : Layer → Memory → (ptr size align : ℕ) → Option Moved
unfolding malloc elem_from_data
realloc layer m ptr size align =
    let elem = elem_from_data m ptr in
    let size' = cache_line_roundup size in
    let align' = cache_line_roundup align % 2 ^ 32 in
    let fresh = malloc layer m size align in
    let resized = elem_resize m elem size' in
    let in_place = align_ceil 64 32 ptr align' == ptr && resized.0 in
    let left = if align_ceil 64 32 ptr align' == ptr then resized.1 else m in
    let (m', new_ptr) = malloc layer left size' align' in
    if ptr == 0
    then some (record { memory = fresh.0; ptr = fresh.1; copied = 0 })
    else if in_place
    then some (record { memory = resized.1; ptr = ptr; copied = 0 })
    else move m' elem ptr size' new_ptr

-- `rte_malloc_validate` and `rte_malloc_get_socket_stats`, `none` for -1.
unfoldable pub malloc_validate : Memory → ℕ → ℕ
unfolding elem_from_data
malloc_validate m ptr =
    let e = m.elem_at (elem_from_data m ptr) in sub64 (sub64 e.size e.pad) elem_overhead

unfoldable pub get_socket_stats : Layer → Memory → ℕ → Option Stats
unfolding heap_get_stats
get_socket_stats layer m socket =
    if leb max_numa_nodes socket
    then none
    else some (heap_get_stats m (get_or layer.malloc_heaps socket 0))
