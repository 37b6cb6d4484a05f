-- ===== src/Memzone/Reserve.antt =====
-- Reservation and release of lib/common/eal_common_memzone.c, with the lock of the table held.
use rte_demo.Prelude.{
  true, false, replicate, ℕ, ◌+◌, ◌-◌, ◌^◌, List, [], ◌∷◌, length, get_or, set, Option, none, some,
  Bool, not, ◌&&◌, ◌||◌, bit_and, ltb, leb, ◌==◌, if◌then◌else◌,
}
use rte_demo.Word.{add32, sub32, add64, sub64, is_power_of_2}
use rte_demo.Ring.Types.{Errno, einval, enametoolong, enomem, enospc, eexist, Result, ok, err}
use rte_demo.Ring.Transfer.{◌>>=◌}
use rte_demo.Malloc.Types.{Memory, elem_overhead}
use rte_demo.Malloc.Heap.{heap_alloc}
use rte_demo.Malloc.Elem.{elem_free_call}
use rte_demo.Malloc.Sockets.{
  Memseg, heap_init, Layer, max_numa_nodes, socket_id_any, get_numa_socket, heap_get_stats,
  try_heaps, bad_align, elem_from_data, free,
}
use rte_demo.Memzone.Types.{
  Zone, no_zone, max_memzone, memzone_namesize, Config, lookup, get_next_free_memzone,
}

-- The loop of `find_heap_max_free_elem` over the heaps: the greatest free block so far and its socket.
unfoldable pub max_free : Memory → (socket : ℕ) → List ℕ → (i len s : ℕ) → ℕ × ℕ
max_free m socket [] i len s = (len, s)
max_free m socket (heap ∷ heaps) i len s =
    let greatest = (heap_get_stats m heap).greatest_free_size in
    let looked = socket == socket_id_any || socket == i in
    if looked && ltb len greatest
    then max_free m socket heaps (i + 1) greatest i
    else max_free m socket heaps (i + 1) len s

-- `find_heap_max_free_elem`: the length and the socket.
unfoldable pub find_heap_max_free_elem : Layer → Memory → (socket align : ℕ) → ℕ × ℕ
unfolding max_free
find_heap_max_free_elem layer m socket align =
    let (len, s) = max_free m socket layer.malloc_heaps 0 0 socket in
    if ltb len (add32 elem_overhead align)
    then (0, s)
    else (sub64 (sub64 len elem_overhead) align, s)

-- The length on cache lines, and at least one of them.
abbrev pub rounded : ℕ → ℕ
rounded len = bit_and (add64 len 63) (2 ^ 64 - 64)

abbrev pub requested : ℕ → ℕ
requested len = if ltb (rounded len) 64 then 64 else rounded len

abbrev pub bad_bound : (len bound : ℕ) → Bool
bad_bound len bound = not (bound == 0) && (ltb bound (requested len) || not (is_power_of_2 bound))

-- The tests before anything is allocated, `none` where all are passed.
abbrev pub refused_args : (len socket_id align bound : ℕ) → Option Errno
refused_args len socket_id align bound =
    if bad_align align
    then some einval
    else if ltb (2 ^ 64 - 1 - 63) len
    then some einval
    else if bad_bound len bound
    then some einval
    else if not (socket_id == socket_id_any) && leb max_numa_nodes socket_id
    then some einval
    else none

abbrev pub refused_name : Option ℕ → (len socket_id align bound : ℕ) → Option Errno
refused_name (some i) len socket_id align bound = some eexist
refused_name none len socket_id align bound = refused_args len socket_id align bound

unfoldable pub refused : Config → List ℕ → (len socket_id align bound : ℕ) → Option Errno
refused mcfg name len socket_id align bound =
    if leb max_memzone mcfg.memzone_cnt
    then some enospc
    else if ltb (memzone_namesize - 1) (length name)
    then some enametoolong
    else refused_name (lookup mcfg name) len socket_id align bound

-- The length to allocate and the socket, after "if (len == 0)".
unfoldable pub zone_size : Layer → Memory → (len socket_id align bound : ℕ) → ℕ × ℕ
unfolding find_heap_max_free_elem
zone_size layer m len socket_id align bound =
    if rounded len == 0
    then if not (bound == 0)
      then (bound, socket_id)
      else find_heap_max_free_elem layer m socket_id align
    else (requested len, socket_id)

-- `malloc_heap_alloc` on the heap of the socket, then on the others.
unfoldable pub zone_alloc : Layer → Memory → (socket_id len flags align bound : ℕ) → Memory × ℕ
unfolding get_numa_socket try_heaps
zone_alloc layer m socket_id len flags align bound =
    let socket = if socket_id == socket_id_any then get_numa_socket layer else socket_id in
    let call : Memory → ℕ → Memory × ℕ =
      λ m heap. heap_alloc layer.hugepage_sz m heap len flags align bound in
    let first = call m (get_or layer.malloc_heaps socket 0) in
    let others = try_heaps call socket layer.malloc_heaps 0 first.0 in
    if first.1 == 0 && socket_id == socket_id_any then others else first

-- "fill the zone in config": the element's fields, then the entry that the search found.
abbrev pub filled : Layer → Memory → List ℕ → (requested_len mz_addr : ℕ) → Zone
filled layer m name requested_len mz_addr =
    let e = m.elem_at (elem_from_data m mz_addr) in
    record {
      name = name;
      addr = mz_addr;
      len = if requested_len == 0 then sub64 e.size elem_overhead else requested_len;
      hugepage_sz = layer.hugepage_sz e.ms;
      socket_id = layer.socket_of e.ms;
      flags = 0;
      memseg_id = e.ms;
    }

abbrev pub put_zone :
    Layer → Config → List ℕ → (requested_len mz_addr : ℕ) → Option ℕ → Result ℕ × Config
put_zone layer mcfg name requested_len mz_addr none = (
  err enospc,
  record mcfg { memory = (elem_free_call mcfg.memory (elem_from_data mcfg.memory mz_addr)).1 },
)
put_zone layer mcfg name requested_len mz_addr (some i) = (
  ok i,
  record mcfg {
    memzone_cnt = add32 mcfg.memzone_cnt 1;
    memzone = set mcfg.memzone i (filled layer mcfg.memory name requested_len mz_addr);
  },
)

unfoldable pub fill_zone : Layer → Config → List ℕ → (requested_len mz_addr : ℕ) → Result ℕ × Config
fill_zone layer mcfg name requested_len mz_addr =
    put_zone layer mcfg name requested_len mz_addr (get_next_free_memzone mcfg)

-- After the allocation.
unfoldable pub allocated : Layer → Config → List ℕ → (size : ℕ) → Memory × ℕ → Result ℕ × Config
allocated layer mcfg name size (m, mz_addr) =
    if size == 0
    then (err enomem, mcfg)
    else if mz_addr == 0
    then (err enomem, record mcfg { memory = m })
    else fill_zone layer (record mcfg { memory = m }) name size mz_addr

-- After the tests.
unfoldable pub reserve_checked :
    Layer → Config → List ℕ → (len socket_id flags align bound : ℕ) → Result ℕ × Config
reserve_checked layer mcfg name len socket_id flags align bound =
    let wanted = if layer.has_hugepages then socket_id else socket_id_any in
    let (size, socket) = zone_size layer mcfg.memory len wanted align bound in
    allocated layer mcfg name size (zone_alloc layer mcfg.memory socket size flags align bound)

abbrev pub go_on :
    Layer
    → Config
    → List ℕ
    → (len socket_id flags align bound : ℕ) → Option Errno
    → Result ℕ × Config
go_on layer mcfg name len socket_id flags align bound (some e) = (err e, mcfg)
go_on layer mcfg name len socket_id flags align bound none =
    reserve_checked layer mcfg name len socket_id flags (if ltb align 64 then 64 else align) bound

-- `memzone_reserve_aligned_thread_unsafe`, which is `rte_memzone_reserve_bounded` under the lock:
-- the index of the zone or the error, and the table.
unfoldable pub reserve_bounded :
    Layer → Config → List ℕ → (len socket_id flags align bound : ℕ) → Result ℕ × Config
reserve_bounded layer mcfg name len socket_id flags align bound =
    go_on layer mcfg name len socket_id flags align bound
      (refused mcfg name len socket_id align bound)

unfoldable pub reserve_aligned :
    Layer → Config → List ℕ → (len socket_id flags align : ℕ) → Result ℕ × Config
reserve_aligned layer mcfg name len socket_id flags align =
    reserve_bounded layer mcfg name len socket_id flags align 0

unfoldable pub reserve : Layer → Config → List ℕ → (len socket_id flags : ℕ) → Result ℕ × Config
reserve layer mcfg name len socket_id flags =
    reserve_bounded layer mcfg name len socket_id flags 64 0

-- `rte_memzone_free` of the zone with an index, `none` where it panics.
unfoldable pub zone_free : Config → ℕ → Option (Result (Unit {0}) × Config)
zone_free mcfg idx =
    let addr = (get_or mcfg.memzone idx no_zone).addr in
    let cleared = do
      m ← free mcfg.memory addr
      some (
        ok tt,
        record mcfg {
          memzone_cnt = sub32 mcfg.memzone_cnt 1;
          memzone = set mcfg.memzone idx no_zone;
          memory = m;
        },
      )
    in if addr == 0
      then some (err einval, mcfg)
      else if mcfg.memzone_cnt == 0
      then none
      else cleared

-- `rte_eal_memzone_init`: whether it returns 0, and the table; `memseg` is what
-- `rte_eal_get_physmem_layout` returned.
abbrev pub fresh_table : Layer → Config → Option (List Memseg) → Bool × Config
fresh_table layer mcfg none = (false, mcfg)
fresh_table layer mcfg (some memseg) = (
  true,
  record {
    memzone_cnt = 0;
    memzone = replicate max_memzone no_zone;
    memory = heap_init layer mcfg.memory memseg;
  },
)

unfoldable pub memzone_init :
    (secondary : Bool) → Layer → Config → Option (List Memseg) → Bool × Config
memzone_init secondary layer mcfg memseg =
    if secondary then (true, mcfg) else fresh_table layer mcfg memseg
