-- ===== src/Ring/Registry/Tests.antt =====
-- A ring is created in a registry with none, and freed in one with one.
use rte_demo.Prelude.{
  ℕ, zero, suc, ◌≡◌, refl, sym, ap, ◌∙◌, inl, inr, arith, [], ◌∷◌, ◌++◌, replicate,
  length-replicate, some, none, Option, Bool, true, false, ◌==◌, if◌then◌else◌,
}
use rte_demo.Ring.Types.{Ring}
use rte_demo.Ring.Setup.{no_indices}
use rte_demo.Malloc.Types.{Elem, Memory, elem_busy}
use rte_demo.Malloc.Elem.{cleared, elem_free_call, join_next, join_prev, join_elem, clear}
use rte_demo.Malloc.FreeList.{free_list_insert, free_list_remove, free_list_index, digits}
use rte_demo.Malloc.Sockets.{Layer, add_memseg, free, elem_from_data}
use rte_demo.Memzone.Reserve.{zone_free}
use rte_demo.Memzone.Types.{Zone, no_zone, is_used}
use rte_demo.Memzone.Names.{zone, used_count}
use rte_demo.Tailq.Entries.{Entry, find_entry}
use rte_demo.Ring.Registry.{Registry, ring_prefix, ring_create, ring_free}
use rte_demo.Ring.Registry.Listed.{IsRegistry}
use rte_demo.Ring.Registry.Created.{Ends, create_lem}
use rte_demo.Ring.Registry.Freed.{FreeEnds, ring_free_lem}

abbrev layer : Layer
layer = record {
  has_hugepages = true;
  socket_id = 0;
  malloc_heaps = 64 ∷ [];
  hugepage_sz = λ ms. 2097152;
  socket_of = λ ms. 0;
}

-- One heap with one segment of a page.
abbrev memory : Memory
memory =
    add_memseg
      (record {
        elem_at = λ a. cleared;
        heap_at = λ a. record { free_head = replicate 13 []; alloc_count = 0; total_size = 0 };
      })
      64 0 2097152 2097152

abbrev ring_a : Ring
ring_a = record {
  name = 97 ∷ [];
  flags = 0;
  memzone = some 0;
  size = 0;
  mask = 0;
  capacity = 0;
  prod = no_indices;
  cons = no_indices;
  slots = [];
}

abbrev zone_a : Zone
zone_a = record no_zone { name = ring_prefix ++ (97 ∷ []); addr = 2097216; len = 512 }

-- The list entry stands in the block behind the zone.
abbrev entry_a : Entry
entry_a = record { te = 2098240; item = 0 }

abbrev block : (prev size : ℕ) → Elem
block prev size = record { heap = 64; prev = prev; ms = 0; state = elem_busy; pad = 0; size = size }

-- The whole segment is in these two blocks and the end of the segment.
abbrev taken : Memory
taken = record {
  elem_at = λ a.
      if a == 2097152
      then block 0 1024
      else if a == 2098176
      then block 2097152 2096064
      else block 2098176 0;
  heap_at = λ a. record { free_head = replicate 13 []; alloc_count = 2; total_size = 2097088 };
}

abbrev without : Registry
without = record {
  config = record { memzone_cnt = 0; memzone = replicate 2560 no_zone; memory = memory };
  ring_at = λ i. ring_a;
  ring_list = [];
}

abbrev with_a : Registry
with_a = record {
  config = record { memzone_cnt = 1; memzone = zone_a ∷ replicate 2559 no_zone; memory = taken };
  ring_at = λ i. ring_a;
  ring_list = entry_a ∷ [];
}

all_empty : (n k : ℕ) → zone (replicate n no_zone) k ≡ no_zone
all_empty zero k = refl
all_empty (suc n) zero = refl
all_empty (suc n) (suc k) = all_empty n k

none_used : (n : ℕ) → used_count (replicate n no_zone) ≡ 0
none_used zero = refl
none_used (suc n) = omega (arith, none_used n)

first_used : (n k : ℕ) → is_used (zone (zone_a ∷ replicate n no_zone) k) ≡ true → k ≡ 0
first_used n zero e = refl
first_used n (suc k) e = absurd (ground (arith, e, ap is_used (all_empty n k)))

without-IsRegistry : IsRegistry without
without-IsRegistry = record {
  zones = record {
    full = length-replicate 2560 no_zone;
    counted = sym (none_used 2560);
    unique = λ i j p q e. absurd (ground (arith, p, ap is_used (all_empty 2560 i)));
  };
  apart = tt;
  stand = λ e h. elim h [ ];
}

with_a-IsRegistry : IsRegistry with_a
with_a-IsRegistry = record {
  zones = record {
    full = omega (arith, length-replicate 2559 no_zone);
    counted = omega (arith, none_used 2559);
    unique = λ i j p q e. first_used 2559 i p ∙ sym (first_used 2559 j q);
  };
  apart = (λ e h. elim h [ ], tt);
  stand = λ e h. elim h [
    | inl p ↦ rw p (record { used = refl; owned = refl; named = refl; short = omega arith })
    | inr p ↦ absurd p
  ];
}

create_lem_example :
    Ends layer without (98 ∷ []) 8 0 0 (ring_create layer (λ a. 0) without (98 ∷ []) 8 0 0)
create_lem_example =
    create_lem layer (λ a. 0) without (98 ∷ []) 8 0 0 without-IsRegistry
      (inr (refl, 3, omega arith, refl))

ring_free_lem_example : FreeEnds with_a 0 (ring_free with_a (some 0))
ring_free_lem_example = ring_free_lem with_a entry_a with_a-IsRegistry (inl refl)

-- The heap takes both blocks back, so that the ring is freed.
abbrev is_freed : Option Registry → Bool
is_freed none = false
is_freed (some reg) = true

with_a_freed : is_freed (ring_free with_a (some 0)) ≡ true
unfolding ring_free zone_free free elem_from_data elem_free_call join_next join_prev join_elem
    free_list_insert free_list_remove free_list_index digits clear find_entry
with_a_freed = refl
