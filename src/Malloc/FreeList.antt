-- ===== src/Malloc/FreeList.antt =====
-- The free lists of a heap in lib/common/malloc_elem.c.
use rte_demo.Prelude.{ℕ, zero, suc, ◌+◌, ◌-◌, ◌/◌, ◌^◌, List, [], ◌∷◌, leb, ◌==◌, if◌then◌else◌}
use rte_demo.Word.{sub64}
use rte_demo.Malloc.Types.{Memory, elem_free, set_elem, set_heap, header_len, num_freelists}

-- The number of digits of a word of at most `k` digits, which is `k - __builtin_clzl(x)` on a word
-- of `k` digits that is not 0.
unfoldable pub digits : ℕ → ℕ → ℕ
digits zero x = 0
digits (suc k) x = let rest = digits k (x / 2) in if x == 0 then 0 else suc rest

unfoldable pub free_list_index : ℕ → ℕ
free_list_index size =
    let log2 = digits 64 (size - 1) in
    let index = (log2 - 8 + 2 - 1) / 2 in
    if leb size (2 ^ 8)
    then 0
    else if leb index (num_freelists - 1)
    then index
    else num_freelists - 1

abbrev pub push_at : ℕ → ℕ → List (List ℕ) → List (List ℕ)
push_at i a [] = []
push_at zero a (l ∷ ls) = (a ∷ l) ∷ ls
push_at (suc i) a (l ∷ ls) = l ∷ push_at i a ls

abbrev pub remove : ℕ → List ℕ → List ℕ
remove a [] = []
remove a (b ∷ bs) = let rest = remove a bs in if b == a then rest else b ∷ rest

abbrev pub remove_all : ℕ → List (List ℕ) → List (List ℕ)
remove_all a [] = []
remove_all a (l ∷ ls) = remove a l ∷ remove_all a ls

-- `LIST_INSERT_HEAD` on the list of the element's size, with the state set.
unfoldable pub free_list_insert : Memory → ℕ → Memory
free_list_insert m elem =
    let e = m.elem_at elem in
    let idx = free_list_index (sub64 e.size header_len) in
    let h = m.heap_at e.heap in
    set_heap (set_elem m elem (record e { state = elem_free })) e.heap
      (record h { free_head = push_at idx elem h.free_head })

-- `LIST_REMOVE`: the element goes out of the list that it is in.
unfoldable pub free_list_remove : Memory → ℕ → Memory
free_list_remove m elem =
    let h = m.heap_at (m.elem_at elem).heap in
    set_heap m (m.elem_at elem).heap (record h { free_head = remove_all elem h.free_head })
