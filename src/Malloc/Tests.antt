-- ===== src/Malloc/Tests.antt =====
-- Runs of the element operations on a segment at 4096 with one free element of 8192 bytes.
use rte_demo.Prelude.{ℕ, ◌^◌, ◌≡◌, refl, ◌⊎◌, arith, [], ◌∷◌, drop, ◌==◌, if◌then◌else◌, replicate}
use rte_demo.Malloc.Types.{Memory, elem_free, elem_busy}
use rte_demo.Malloc.Fit.{elem_start_pt, can_hold}
use rte_demo.Malloc.Heap.{check_hugepage_sz, find_suitable_element}
use rte_demo.Malloc.Search.{Outcome, find_suitable_element_lem}
use rte_demo.Malloc.FreeList.{free_list_index}
use rte_demo.Malloc.Elem.{split_elem, join_elem, elem_resize}
use rte_demo.Malloc.Resize
use rte_demo.Malloc.Resize.{elem_resize_lem}
use rte_demo.Malloc.Start.{Fits, elem_start_pt_lem}
use rte_demo.Malloc.Cut.{join_elem-split_elem}

abbrev segment : Memory
segment = record {
  elem_at = λ a.
      if a == 4096
      then record { heap = 1; prev = 0; ms = 2; state = elem_free; pad = 0; size = 8192 }
      else record { heap = 1; prev = 4096; ms = 2; state = elem_busy; pad = 0; size = 0 };
  heap_at = λ a. record { free_head = []; alloc_count = 0; total_size = 0 };
}

elem_start_pt_lem_example :
    Fits 4096 8192 1000 (2 ^ 6) (elem_start_pt 4096 8192 1000 (2 ^ 6) 0)
    ⊎ ((elem_start_pt 4096 8192 1000 (2 ^ 6) 0 ≡ 0) × (¬ ((p : ℕ) × Fits 4096 8192 1000 (2 ^ 6) p)))
elem_start_pt_lem_example =
    elem_start_pt_lem 4096 8192 1000 6 (omega arith) (omega arith) (omega arith)

join_elem-split_elem_example :
    ((split_elem segment 4096 6144).elem_at 6144
      ≡ record { heap = 1; prev = 4096; ms = 2; state = elem_free; pad = 0; size = 6144 })
    × ((split_elem segment 4096 6144).elem_at 4096 ≡ record (segment.elem_at 4096) { size = 2048 })
    × ((split_elem segment 4096 6144).elem_at 12288
        ≡ record (segment.elem_at 12288) { prev = 6144 })
    × ((a : ℕ)
        → ¬ (a ≡ 4096)
        → ¬ (a ≡ 6144)
        → ¬ (a ≡ 12288)
        → (split_elem segment 4096 6144).elem_at a ≡ segment.elem_at a)
    × ((a : ℕ)
        → ¬ (a ≡ 6144)
        → (join_elem (split_elem segment 4096 6144) 4096 6144).elem_at a ≡ segment.elem_at a)
join_elem-split_elem_example =
    join_elem-split_elem segment 4096 6144 (omega arith) (omega arith) (omega arith) refl

-- A busy element of 2048 bytes before a free one of 6144 bytes.
abbrev two : Memory
two = record segment {
  elem_at = λ a.
      if a == 4096
      then record { heap = 1; prev = 0; ms = 2; state = elem_busy; pad = 0; size = 2048 }
      else if a == 6144
      then record { heap = 1; prev = 4096; ms = 2; state = elem_free; pad = 0; size = 6144 }
      else record { heap = 1; prev = 6144; ms = 2; state = elem_busy; pad = 0; size = 0 };
  heap_at = λ a. record {
    free_head = [] ∷ [] ∷ [] ∷ (6144 ∷ []) ∷ replicate 9 [];
    alloc_count = 1;
    total_size = 8192;
  };
}

elem_resize_lem_example : Resize.Outcome two 4096 3064 (elem_resize two 4096 3000)
elem_resize_lem_example =
    elem_resize_lem two 4096 3000 (omega arith) (omega arith) (omega arith) refl refl

-- The same segment with its element in the list of its size.
abbrev searched : Memory
searched = record segment {
  heap_at = λ a. record {
    free_head = [] ∷ [] ∷ [] ∷ (4096 ∷ []) ∷ [];
    alloc_count = 0;
    total_size = 8192;
  };
}

abbrev pages : ℕ → ℕ
pages ms = 2 ^ 21

find_suitable_element_lem_example :
    Outcome
      (λ e. can_hold e (searched.elem_at e).size 1024 64 0)
      (λ e. check_hugepage_sz 1 (pages (searched.elem_at e).ms))
      1
      (drop (free_list_index 1024) (searched.heap_at 1).free_head)
      (find_suitable_element pages searched 1 1024 1 64 0)
find_suitable_element_lem_example = find_suitable_element_lem pages searched 1 1024 1 64 0
