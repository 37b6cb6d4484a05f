-- ===== src/Memzone/Tests.antt =====
-- A reservation and a release in a table with one zone.
use rte_demo.Prelude.{
  ℕ, zero, suc, ◌≡◌, refl, sym, ap, ◌∙◌, ◌⊎◌, arith, true, false, [], ◌∷◌, replicate,
  length-replicate, some, none,
}
use rte_demo.Ring.Types.{ok, err, einval}
use rte_demo.Malloc.Types.{Memory}
use rte_demo.Malloc.Elem.{cleared}
use rte_demo.Malloc.Sockets.{Layer, add_memseg, free}
use rte_demo.Memzone.Types.{Zone, no_zone, Config, is_used}
use rte_demo.Memzone.Reserve.{reserve_bounded, zone_free}
use rte_demo.Memzone.Names.{zone, used_count, IsZones}
use rte_demo.Memzone.Reserved.{Outcome, reserve_bounded_lem}
use rte_demo.Memzone.Freed.{Releases, zone_free_lem}

abbrev layer : Layer
layer = record {
  has_hugepages = true;
  socket_id = 0;
  malloc_heaps = 64 ∷ [];
  hugepage_sz = λ ms. 2097152;
  socket_of = λ ms. 0;
}

-- One heap with one segment of a page.
abbrev memory : Memory
memory =
    add_memseg
      (record {
        elem_at = λ a. cleared;
        heap_at = λ a. record { free_head = replicate 13 []; alloc_count = 0; total_size = 0 };
      })
      64 0 2097152 2097152

abbrev first_entry : Zone
first_entry = record no_zone { name = 97 ∷ []; addr = 2097216; len = 64 }

abbrev table : Config
table = record { memzone_cnt = 1; memzone = first_entry ∷ replicate 2559 no_zone; memory = memory }

all_empty : (n k : ℕ) → zone (replicate n no_zone) k ≡ no_zone
all_empty zero k = refl
all_empty (suc n) zero = refl
all_empty (suc n) (suc k) = all_empty n k

none_used : (n : ℕ) → used_count (replicate n no_zone) ≡ 0
none_used zero = refl
none_used (suc n) = omega (arith, none_used n)

first_used : (n k : ℕ) → is_used (zone (first_entry ∷ replicate n no_zone) k) ≡ true → k ≡ 0
first_used n zero e = refl
first_used n (suc k) e = absurd (ground (arith, e, ap is_used (all_empty n k)))

table-IsZones : IsZones table
table-IsZones = record {
  full = omega (arith, length-replicate 2559 no_zone);
  counted = omega (arith, none_used 2559);
  unique = λ i j p q e. first_used 2559 i p ∙ sym (first_used 2559 j q);
}

reserve_bounded_lem_example :
    Outcome table (98 ∷ []) (reserve_bounded layer table (98 ∷ []) 100 0 0 64 0)
reserve_bounded_lem_example = reserve_bounded_lem layer table (98 ∷ []) 100 0 0 64 0 table-IsZones

zone_free_lem_example :
    ((is_used (zone table.memzone 0) ≡ false) × (zone_free table 0 ≡ some (err einval, table)))
    ⊎ ((is_used (zone table.memzone 0) ≡ true)
        × (free memory 2097216 ≡ none)
        × (zone_free table 0 ≡ none))
    ⊎ ((is_used (zone table.memzone 0) ≡ true)
        × (m : Memory) × (mcfg' : Config) × (free memory 2097216 ≡ some m)
        × (zone_free table 0 ≡ some (ok tt, mcfg'))
        × (mcfg'.memory ≡ m)
        × Releases table 0 mcfg')
zone_free_lem_example = zone_free_lem table 0 table-IsZones (omega arith)
