-- ===== src/Hugepage/Tests.antt =====
-- Two sockets with pages of two sizes, and three pages in two segments.
use rte_demo.Prelude.{
  ℕ, ◌^◌, ◌≤◌, ◌<◌, ◌≡◌, refl, ◌⊎◌, arith, List, [], ◌∷◌, replicate, length-replicate, none, some,
  true, false, zero, suc,
}
use rte_demo.Malloc.Sockets.{max_memseg, max_numa_nodes}
use rte_demo.Hugepage.Types.{HugepageFile, no_page, HugepageInfo, InternalConfig, no_segment}
use rte_demo.Hugepage.Share.{Cores, default_memory, calc_num_pages_per_socket}
use rte_demo.Hugepage.Segments.{fill_memsegs}
use rte_demo.Hugepage.Pages.{unmap_unneeded_hugepages, copy_hugepages_to_shared_mem}
use rte_demo.Hugepage.Kept.{IsReduced, unmap_unneeded_hugepages_lem}
use rte_demo.Hugepage.Copied.{IsCopied, copy_hugepages_to_shared_mem_lem}
use rte_demo.Hugepage.Wanted.{bytes_on, IsUnused}
use rte_demo.Hugepage.Served.{Outcome, calc_num_pages_lem}
use rte_demo.Hugepage.Contiguous.{needed, Placed}
use rte_demo.Hugepage.Joined.{fill_memsegs_lem}

abbrev no_pages : List ℕ
no_pages = 0 ∷ 0 ∷ 0 ∷ 0 ∷ 0 ∷ 0 ∷ 0 ∷ 0 ∷ []

-- One page of 1 GB and four of 2 MB on the first socket, eight of 2 MB on the second.
abbrev big : HugepageInfo
big = record {
  hugepage_sz = 1073741824;
  hugedir = some [];
  num_pages = 1 ∷ 0 ∷ 0 ∷ 0 ∷ 0 ∷ 0 ∷ 0 ∷ 0 ∷ [];
}

abbrev small : HugepageInfo
small = record {
  hugepage_sz = 2097152;
  hugedir = some [];
  num_pages = 4 ∷ 8 ∷ 0 ∷ 0 ∷ 0 ∷ 0 ∷ 0 ∷ 0 ∷ [];
}

abbrev hp_used : List HugepageInfo
hp_used =
    record { hugepage_sz = 1073741824; hugedir = none; num_pages = no_pages }
    ∷ record { hugepage_sz = 2097152; hugedir = none; num_pages = no_pages }
    ∷ []

-- 5 MB from the first socket and 4 MB from the second.
abbrev memory : List ℕ
memory = 5242880 ∷ 4194304 ∷ 0 ∷ 0 ∷ 0 ∷ 0 ∷ 0 ∷ 0 ∷ []

abbrev config : InternalConfig
config = record {
  memory = 9437184;
  force_nchannel = 0;
  force_nrank = 0;
  force_sockets = true;
  socket_mem = memory;
  hugepage_info = big ∷ small ∷ [];
}

abbrev cores : Cores
cores = record { sockets = 0 ∷ 1 ∷ []; lcore_count = 2 }

unused : (j : ℕ) → j < max_numa_nodes → IsUnused j (big ∷ small ∷ []) hp_used
unused zero h =
    ((omega arith, refl, refl, omega arith), ((omega arith, refl, refl, omega arith), tt))
unused (suc zero) h =
    ((omega arith, refl, refl, omega arith), ((omega arith, refl, refl, omega arith), tt))
unused (suc (suc zero)) h =
    ((omega arith, refl, refl, omega arith), ((omega arith, refl, refl, omega arith), tt))
unused (suc (suc (suc zero))) h =
    ((omega arith, refl, refl, omega arith), ((omega arith, refl, refl, omega arith), tt))
unused (suc (suc (suc (suc zero)))) h =
    ((omega arith, refl, refl, omega arith), ((omega arith, refl, refl, omega arith), tt))
unused (suc (suc (suc (suc (suc zero))))) h =
    ((omega arith, refl, refl, omega arith), ((omega arith, refl, refl, omega arith), tt))
unused (suc (suc (suc (suc (suc (suc zero)))))) h =
    ((omega arith, refl, refl, omega arith), ((omega arith, refl, refl, omega arith), tt))
unused (suc (suc (suc (suc (suc (suc (suc zero))))))) h =
    ((omega arith, refl, refl, omega arith), ((omega arith, refl, refl, omega arith), tt))
unused (suc (suc (suc (suc (suc (suc (suc (suc j)))))))) h = absurd (omega arith)

fit : (j : ℕ) → bytes_on (big ∷ small ∷ []) j < 2 ^ 64
fit zero = omega arith
fit (suc zero) = omega arith
fit (suc (suc zero)) = omega arith
fit (suc (suc (suc zero))) = omega arith
fit (suc (suc (suc (suc zero)))) = omega arith
fit (suc (suc (suc (suc (suc zero))))) = omega arith
fit (suc (suc (suc (suc (suc (suc zero)))))) = omega arith
fit (suc (suc (suc (suc (suc (suc (suc zero))))))) = omega arith
fit (suc (suc (suc (suc (suc (suc (suc (suc j)))))))) = omega arith

calc_num_pages_lem_example :
    Outcome
      (big ∷ small ∷ [])
      hp_used
      (default_memory config cores memory)
      max_numa_nodes
      0
      (calc_num_pages_per_socket config cores memory (big ∷ small ∷ []) hp_used)
unfolding default_memory
calc_num_pages_lem_example =
    calc_num_pages_lem config cores memory big (small ∷ []) hp_used unused fit refl (omega arith)
      (omega arith)

abbrev page_at : (va pa socket : ℕ) → HugepageFile
page_at va pa socket = record no_page {
  final_va = va;
  physaddr = pa;
  size = 2097152;
  socket_id = socket;
}

-- The second page follows the first, the third is on another socket.
abbrev pages : List HugepageFile
pages = page_at 2097152 4194304 0 ∷ page_at 4194304 6291456 0 ∷ page_at 6291456 8388608 1 ∷ []

fill_memsegs_lem_example :
    ((needed none pages ≤ max_memseg)
      × ((fill_memsegs (replicate 256 no_segment) 0 none pages).complete ≡ true)
      × Placed
          (fill_memsegs (replicate 256 no_segment) 0 none pages).memseg
          pages
          (fill_memsegs (replicate 256 no_segment) 0 none pages).pages)
    ⊎ ((max_memseg < needed none pages)
        × ((fill_memsegs (replicate 256 no_segment) 0 none pages).complete ≡ false))
fill_memsegs_lem_example =
    fill_memsegs_lem pages (replicate 256 no_segment) (length-replicate 256 no_segment) (
      record { virtual_word = omega arith; physical_word = omega arith },
      (
        record { virtual_word = omega arith; physical_word = omega arith },
        (record { virtual_word = omega arith; physical_word = omega arith }, tt),
      ),
    )

-- One page of 2 MB is wanted on the first socket and none on the second.
abbrev one_small : HugepageInfo
one_small = record {
  hugepage_sz = 2097152;
  hugedir = some [];
  num_pages = 1 ∷ 0 ∷ 0 ∷ 0 ∷ 0 ∷ 0 ∷ 0 ∷ 0 ∷ [];
}

unmap_unneeded_hugepages_lem_example :
    ((unmap_unneeded_hugepages (λ p. true) (big ∷ one_small ∷ []) pages).1 ≡ true)
    × IsReduced
        (big ∷ one_small ∷ [])
        pages
        (unmap_unneeded_hugepages (λ p. true) (big ∷ one_small ∷ []) pages).0
unmap_unneeded_hugepages_lem_example =
    unmap_unneeded_hugepages_lem (λ p. true) (big ∷ one_small ∷ []) pages (λ p. refl)
      ((omega arith, tt), (tt, tt)) (omega arith, (omega arith, (omega arith, tt)))

copy_hugepages_to_shared_mem_lem_example :
    IsCopied []
      (replicate 4 no_page)
      2
      (no_page ∷ pages)
      (copy_hugepages_to_shared_mem (replicate 4 no_page) 2 (no_page ∷ pages))
copy_hugepages_to_shared_mem_lem_example =
    copy_hugepages_to_shared_mem_lem (replicate 4 no_page) 2 (no_page ∷ pages)
      (omega (arith, length-replicate 4 no_page))
