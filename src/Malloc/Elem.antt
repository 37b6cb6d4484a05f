-- ===== src/Malloc/Elem.antt =====
-- The operations of lib/common/malloc_elem.c on the elements of a heap, with the heap's lock held.
use rte_demo.Prelude.{
  ℕ, ◌+◌, ◌%◌, ◌^◌, ltb, leb, ◌==◌, not, ◌&&◌, ◌||◌, Bool, true, false, if◌then◌else◌,
}
use rte_demo.Word.{sub32, add64, sub64, align_ceil}
use rte_demo.Malloc.Types.{
  elem_free, elem_busy, elem_pad, is_free, is_busy, Elem, Memory, set_elem, set_heap, header_len,
  elem_overhead, min_data_size,
}
use rte_demo.Malloc.Fit.{elem_start_pt}
use rte_demo.Malloc.FreeList.{free_list_insert, free_list_remove}

-- `malloc_elem_init`
unfoldable pub elem_init : Memory → (elem heap ms size : ℕ) → Memory
elem_init m elem heap ms size =
    set_elem m elem
      (record { heap = heap; prev = 0; ms = ms; state = elem_free; pad = 0; size = size })

-- `malloc_elem_mkend`
unfoldable pub elem_mkend : Memory → (elem prev : ℕ) → Memory
elem_mkend m elem prev =
    let m' = elem_init m elem (m.elem_at prev).heap (m.elem_at prev).ms 0 in
    set_elem m' elem (record (m'.elem_at elem) { prev = prev; state = elem_busy })

unfoldable pub split_elem : Memory → (elem split_pt : ℕ) → Memory
split_elem m elem split_pt =
    let e = m.elem_at elem in
    let next_elem = add64 elem e.size in
    let old_elem_size = sub64 split_pt elem in
    let new_elem_size = sub64 e.size old_elem_size in
    let m1 = elem_init m split_pt e.heap e.ms new_elem_size in
    let m2 = set_elem m1 split_pt (record (m1.elem_at split_pt) { prev = elem }) in
    let m3 = set_elem m2 next_elem (record (m2.elem_at next_elem) { prev = split_pt }) in
    set_elem m3 elem (record (m3.elem_at elem) { size = old_elem_size })

unfoldable pub join_elem : Memory → (elem1 elem2 : ℕ) → Memory
join_elem m elem1 elem2 =
    let next = add64 elem2 (m.elem_at elem2).size in
    let m1 =
      set_elem m elem1
        (record (m.elem_at elem1) { size = add64 (m.elem_at elem1).size (m.elem_at elem2).size }) in
    set_elem m1 next (record (m1.elem_at next) { prev = elem1 })

-- `if (trailer_size > MALLOC_ELEM_OVERHEAD + MIN_DATA_SIZE)`
unfoldable pub cut_trailer : Memory → (elem new_elem size trailer_size : ℕ) → Memory
cut_trailer m elem new_elem size trailer_size =
    let new_free_elem = add64 new_elem (add64 size elem_overhead) in
    if ltb (elem_overhead + min_data_size) trailer_size
    then free_list_insert (split_elem m elem new_free_elem) new_free_elem
    else m

-- The element is padded and not split; a header in the padding points to the real one.
unfoldable pub pad_elem : Memory → (elem new_elem old_elem_size : ℕ) → Memory
pad_elem m elem new_elem old_elem_size =
    let pad = old_elem_size % 2 ^ 32 in
    let m1 = set_elem m elem (record (m.elem_at elem) { state = elem_busy; pad = pad }) in
    if ltb 0 pad
    then set_elem m1 new_elem (record (m1.elem_at new_elem) {
      pad = pad;
      state = elem_pad;
      size = sub64 (m1.elem_at elem).size pad;
    })
    else m1

-- `malloc_elem_alloc`: the memory and the element that is returned.
unfoldable pub elem_alloc : Memory → (elem size align bound : ℕ) → Memory × ℕ
elem_alloc m elem size align bound =
    let new_elem = elem_start_pt elem (m.elem_at elem).size size align bound in
    let old_elem_size = sub64 new_elem elem in
    let trailer_size =
      sub64 (sub64 (sub64 (m.elem_at elem).size old_elem_size) size) elem_overhead in
    let m1 = cut_trailer (free_list_remove m elem) elem new_elem size trailer_size in
    let split = split_elem m1 elem new_elem in
    let busy = set_elem split new_elem (record (split.elem_at new_elem) { state = elem_busy }) in
    if ltb old_elem_size (elem_overhead + min_data_size)
    then (pad_elem m1 elem new_elem old_elem_size, new_elem)
    else (free_list_insert busy elem, new_elem)

-- What `memset(ptr, 0, sz)` leaves of the headers in the block.
abbrev pub cleared : Elem
cleared = record { heap = 0; prev = 0; ms = 0; state = elem_free; pad = 0; size = 0 }

unfoldable pub clear : Memory → (ptr sz : ℕ) → Memory
clear m ptr sz = record m {
  elem_at = λ a. if leb ptr a && ltb a (ptr + sz) then cleared else m.elem_at a;
}

-- The join with a free element behind, and with a free element before: the memory, the element,
-- and the block to clear.
unfoldable pub join_next : Memory → (elem sz : ℕ) → Memory × ℕ
join_next m elem sz =
    let next = add64 elem (m.elem_at elem).size in
    if is_free (m.elem_at next).state
    then (join_elem (free_list_remove m next) elem next, add64 sz elem_overhead)
    else (m, sz)

unfoldable pub join_prev : Memory → (elem ptr sz : ℕ) → Memory × ℕ × ℕ × ℕ
join_prev m elem ptr sz =
    let prev = (m.elem_at elem).prev in
    if not (prev == 0) && is_free (m.elem_at prev).state
    then (
      join_elem (free_list_remove m prev) prev elem,
      prev,
      sub64 ptr elem_overhead,
      add64 sz elem_overhead,
    )
    else (m, elem, ptr, sz)

-- `malloc_elem_free`: whether it returns 0, and the memory.
unfoldable pub elem_free_call : Memory → ℕ → Bool × Memory
elem_free_call m elem =
    let sz = sub64 (m.elem_at elem).size header_len in
    let ptr = add64 elem header_len in
    let (m1, sz1) = join_next m elem sz in
    let (m2, elem', ptr', sz2) = join_prev m1 elem ptr sz1 in
    let m3 = free_list_insert m2 elem' in
    let home = (m3.elem_at elem').heap in
    let h = m3.heap_at home in
    let m4 = set_heap m3 home (record h { alloc_count = sub32 h.alloc_count 1 }) in
    if elem == 0 || not (is_busy (m.elem_at elem).state)
    then (false, m)
    else (true, clear m4 ptr' sz2)

-- `malloc_elem_resize`: whether it returns 0, and the memory.
unfoldable pub elem_resize : Memory → (elem size : ℕ) → Bool × Memory
elem_resize m elem size =
    let e = m.elem_at elem in
    let new_size = add64 (add64 size e.pad) elem_overhead in
    let next = add64 elem e.size in
    let joined = join_elem (free_list_remove m next) elem next in
    let split_pt = align_ceil 64 32 (add64 elem new_size) 64 in
    let cut = free_list_insert (split_elem joined elem split_pt) split_pt in
    if leb new_size e.size
    then (true, m)
    else if not (is_free (m.elem_at next).state)
    then (false, m)
    else if ltb (add64 e.size (m.elem_at next).size) new_size
    then (false, m)
    else if leb (min_data_size + elem_overhead) (sub64 (joined.elem_at elem).size new_size)
    then (true, cut)
    else (true, joined)
