-- ===== src/Malloc/Types.antt =====
-- The data of lib/common/malloc_elem.h and lib/common/include/rte_malloc_heap.h, and the memory
-- that holds it.
use rte_demo.Prelude.{ℕ, Bool, true, false, List, ◌==◌, if◌then◌else◌}

-- `enum elem_state`
pub data State : Type 0 where
  elem_free elem_busy elem_pad : State

abbrev pub is_free : State → Bool
is_free elem_free = true
is_free _ = false

abbrev pub is_busy : State → Bool
is_busy elem_busy = true
is_busy _ = false

-- `struct malloc_elem`; pointers are addresses, and `prev` is 0 for NULL. The links of the free
-- list are in the heap's lists.
pub record Elem : Type 0 where
  pub heap : ℕ
  pub prev : ℕ
  pub ms : ℕ
  pub state : State
  pub pad : ℕ
  pub size : ℕ

-- `struct malloc_heap`: each free list as the addresses of its elements, the first one first.
pub record Heap : Type 0 where
  pub free_head : List (List ℕ)
  pub alloc_count : ℕ
  pub total_size : ℕ

-- The headers and the heaps by their addresses.
pub record Memory : Type 0 where
  pub elem_at : ℕ → Elem
  pub heap_at : ℕ → Heap

abbrev pub update : {A : Type 0} → (ℕ → A) → ℕ → A → ℕ → A
update f a x b = if b == a then x else f b

abbrev pub set_elem : Memory → ℕ → Elem → Memory
set_elem m a e = record m { elem_at = update m.elem_at a e }

abbrev pub set_heap : Memory → ℕ → Heap → Memory
set_heap m a h = record m { heap_at = update m.heap_at a h }

-- `sizeof(struct malloc_elem)`; there is no trailer without RTE_MALLOC_DEBUG.
abbrev pub header_len : ℕ
header_len = 64

abbrev pub elem_overhead : ℕ
elem_overhead = 64

abbrev pub min_data_size : ℕ
min_data_size = 64

abbrev pub num_freelists : ℕ
num_freelists = 13
