-- ===== src/Malloc/Heap.antt =====
-- The search for a free element and the allocation of lib/common/malloc_heap.c, with the heap's
-- lock held.
use rte_demo.Prelude.{
  ℕ, ◌-◌, ◌^◌, List, [], ◌∷◌, drop, Option, none, some, bit_and, ◌==◌, not, Bool, true,
  if◌then◌else◌,
}
use rte_demo.Word.{add32, add64, cache_line_roundup}
use rte_demo.Malloc.Types.{Memory, set_heap, header_len}
use rte_demo.Malloc.Fit.{can_hold}
use rte_demo.Malloc.FreeList.{free_list_index}
use rte_demo.Malloc.Elem.{elem_alloc}

-- `RTE_MEMZONE_SIZE_HINT_ONLY`
abbrev pub size_hint_only : ℕ
size_hint_only = 4

-- The flag of a page size: the `switch` of `check_hugepage_sz`.
abbrev pub page_flag : ℕ → ℕ
page_flag sz =
    if sz == 2 ^ 18
    then 65536
    else if sz == 2 ^ 21
    then 1
    else if sz == 2 ^ 24
    then 256
    else if sz == 2 ^ 28
    then 131072
    else if sz == 2 ^ 29
    then 262144
    else if sz == 2 ^ 30
    then 2
    else if sz == 2 ^ 32
    then 524288
    else if sz == 2 ^ 34
    then 512
    else 0

unfoldable pub check_hugepage_sz : ℕ → ℕ → Bool
check_hugepage_sz flags sz =
    if bit_and flags (2 ^ 32 - 1 - size_hint_only) == 0
    then true
    else not (bit_and (page_flag sz) flags == 0)

-- The element returned from the loops, if any, and `alt_elem`.
pub record Found : Type 0 where
  pub hit : Option ℕ
  pub alt : Option ℕ

-- `if (alt_elem == NULL) alt_elem = elem;`
abbrev pub or_else : Option ℕ → ℕ → Option ℕ
or_else none e = some e
or_else (some a) e = some a

-- The inner loop, along one list.
unfoldable pub scan : (ℕ → Bool) → (ℕ → Bool) → Option ℕ → List ℕ → Found
scan holds paged alt [] = record { hit = none; alt = alt }
scan holds paged alt (e ∷ es) =
    let kept = scan holds paged (or_else alt e) es in
    let passed = scan holds paged alt es in
    if holds e then if paged e then record { hit = some e; alt = alt } else kept else passed

-- The function returns from within the loop, or goes on with the next list.
abbrev pub pass_on : Option ℕ → Option ℕ → Found → Found
pass_on none alt more = more
pass_on (some e) alt more = record { hit = some e; alt = alt }

-- The outer loop, over the lists from the first index on.
unfoldable pub scan_lists : (ℕ → Bool) → (ℕ → Bool) → Option ℕ → List (List ℕ) → Found
scan_lists holds paged alt [] = record { hit = none; alt = alt }
scan_lists holds paged alt (l ∷ ls) =
    let one = scan holds paged alt l in
    let more = scan_lists holds paged one.alt ls in pass_on one.hit one.alt more

-- What follows the loops.
abbrev pub settle : ℕ → Option ℕ → Option ℕ → Option ℕ
settle flags none alt = if bit_and flags size_hint_only == 0 then none else alt
settle flags (some e) alt = some e

-- `hugepage_sz` gives that field of the segment at an address.
unfoldable pub find_suitable_element :
    (hugepage_sz : ℕ → ℕ) → Memory → (heap size flags align bound : ℕ) → Option ℕ
find_suitable_element hugepage_sz m heap size flags align bound =
    let found =
      scan_lists (λ e. can_hold e (m.elem_at e).size size align bound)
        (λ e. check_hugepage_sz flags (hugepage_sz (m.elem_at e).ms)) none
        (drop (free_list_index size) (m.heap_at heap).free_head) in
    settle flags found.hit found.alt

-- `malloc_heap_alloc`: the memory and the address of the data, 0 for NULL.
unfoldable pub heap_alloc : (ℕ → ℕ) → Memory → (heap size flags align bound : ℕ) → Memory × ℕ
heap_alloc hugepage_sz m heap size flags align bound =
    let size' = cache_line_roundup size in
    let align' = cache_line_roundup align in
    elim (find_suitable_element hugepage_sz m heap size' flags align' bound) [
      | none ↦ (m, 0)
      | some elem ↦
          let (m', new_elem) = elem_alloc m elem size' align' bound in
          let h = m'.heap_at heap in
          (
            set_heap m' heap (record h { alloc_count = add32 h.alloc_count 1 }),
            add64 new_elem header_len,
          )
    ]
