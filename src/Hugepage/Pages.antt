-- ===== src/Hugepage/Pages.antt =====
-- The table of huge pages: the loops of lib/linuxapp/eal/eal_memory.c over its entries, and the
-- totals of lib/common/eal_common_memory.c.
use rte_demo.Prelude.{
  ℕ, ◌+◌, ◌-◌, List, [], ◌∷◌, get_or, set, Option, none, some, Bool, true, false, ◌&&◌, ltb, ◌==◌,
  if◌then◌else◌,
}
use rte_demo.Word.{add32, add64}
use rte_demo.Ring.Transfer.{◌>>=◌}
use rte_demo.Hugepage.Types.{HugepageFile, HugepageInfo, Segment}

-- The loop of `find_physaddrs`; `virt2phy` is `rte_mem_virt2phy`, `none` where it fails.
unfoldable pub find_physaddrs : (ℕ → Option ℕ) → List HugepageFile → Option (List HugepageFile)
find_physaddrs virt2phy [] = some []
find_physaddrs virt2phy (page ∷ pages) = do
  addr ← virt2phy page.orig_va
  rest ← find_physaddrs virt2phy pages
  some (record page { physaddr = addr } ∷ rest)

-- `set_physaddrs`: the address after the last page is kept for the next call.
unfoldable pub set_physaddrs : List HugepageFile → (addr : ℕ) → List HugepageFile × ℕ
set_physaddrs [] addr = ([], addr)
set_physaddrs (page ∷ pages) addr =
    let (rest, addr') = set_physaddrs pages (add64 addr page.size) in
    (record page { physaddr = addr } ∷ rest, addr')

-- `unmap_all_hugepages_orig`
unfoldable pub unmap_all_hugepages_orig : List HugepageFile → List HugepageFile
unmap_all_hugepages_orig [] = []
unmap_all_hugepages_orig (page ∷ pages) =
    record page { orig_va = 0 } ∷ unmap_all_hugepages_orig pages

-- `copy_hugepages_to_shared_mem`, from the index `dst_pos` on: `none` where `dst` is too small.
unfoldable pub copy_active :
    List HugepageFile → (dst_pos dest_size : ℕ) → List HugepageFile → Option (List HugepageFile)
copy_active dst dst_pos dest_size [] = some dst
copy_active dst dst_pos dest_size (page ∷ src) =
    let skipped = copy_active dst dst_pos dest_size src in
    let copied = copy_active (set dst dst_pos page) (dst_pos + 1) dest_size src in
    if page.final_va == 0 then skipped else if dst_pos == dest_size then none else copied

unfoldable pub copy_hugepages_to_shared_mem :
    List HugepageFile → (dest_size : ℕ) → List HugepageFile → Option (List HugepageFile)
copy_hugepages_to_shared_mem dst dest_size src = copy_active dst 0 dest_size src

abbrev pub is_of : HugepageFile → (sz socket : ℕ) → Bool
is_of page sz socket = page.size == sz && page.socket_id == socket

-- `unmap_unneeded_hugepages` on the first `nrpages` entries of the table, which are all that hold a
-- page; `num_pages` has an entry for each socket. The pages that it leaves of one size on one socket: `left` more of them are
-- kept. The second part is false where `unlink` fails, which ends the function.
unfoldable pub unmap_of :
    (HugepageFile → Bool) → (sz socket left : ℕ) → List HugepageFile → List HugepageFile × Bool
unmap_of unlinked sz socket left [] = ([], true)
unmap_of unlinked sz socket left (page ∷ pages) =
    let other = unmap_of unlinked sz socket left pages in
    let kept = unmap_of unlinked sz socket (left - 1) pages in
    let gone : HugepageFile = record page { final_va = 0 } in
    let rest = if unlinked page then other else (pages, false) in
    if is_of page sz socket
    then if left == 0 then (gone ∷ rest.0, rest.1) else (page ∷ kept.0, kept.1)
    else (page ∷ other.0, other.1)

-- The loop over the sockets, from `socket` on, and that over the sizes.
unfoldable pub unmap_sockets :
    (HugepageFile → Bool) → (sz socket : ℕ) → List ℕ → List HugepageFile → List HugepageFile × Bool
unfolding unmap_of
unmap_sockets unlinked sz socket [] pages = (pages, true)
unmap_sockets unlinked sz socket (n ∷ num_pages) pages =
    let (pages', fine) = unmap_of unlinked sz socket n pages in
    let rest = unmap_sockets unlinked sz (socket + 1) num_pages pages' in
    if fine then rest else (pages', false)

unfoldable pub unmap_unneeded_hugepages :
    (HugepageFile → Bool) → List HugepageInfo → List HugepageFile → List HugepageFile × Bool
unfolding unmap_sockets
unmap_unneeded_hugepages unlinked [] pages = (pages, true)
unmap_unneeded_hugepages unlinked (info ∷ hpi) pages =
    let (pages', fine) = unmap_sockets unlinked info.hugepage_sz 0 info.num_pages pages in
    let rest = unmap_unneeded_hugepages unlinked hpi pages' in
    if fine then rest else (pages', false)

-- "find a hugepage info with right size and increment num_pages", for one page and for all.
unfoldable pub count_page : HugepageFile → List HugepageInfo → List HugepageInfo
count_page page [] = []
count_page page (info ∷ infos) =
    let n = get_or info.num_pages page.socket_id 0 in
    let counted : HugepageInfo = record info {
      num_pages = set info.num_pages page.socket_id (add32 n 1);
    } in
    (if page.size == info.hugepage_sz then counted else info) ∷ count_page page infos

unfoldable pub count_pages : List HugepageFile → List HugepageInfo → List HugepageInfo
unfolding count_page
count_pages [] infos = infos
count_pages (page ∷ pages) infos = count_pages pages (count_page page infos)

-- `rte_eal_get_physmem_size`: the sum over the segments before the first without an address.
unfoldable pub sum_segments : List Segment → (total_len : ℕ) → ℕ
sum_segments [] total_len = total_len
sum_segments (seg ∷ segs) total_len =
    let rest = sum_segments segs (add64 total_len seg.len) in
    if seg.addr == 0 then total_len else rest

unfoldable pub get_physmem_size : List Segment → ℕ
unfolding sum_segments
get_physmem_size memseg = sum_segments memseg 0

-- The loop of `eal_check_mem_on_local_socket`: whether no warning is given.
unfoldable pub mem_on_socket : (socket_id : ℕ) → List Segment → Bool
mem_on_socket socket_id [] = false
mem_on_socket socket_id (ms ∷ segs) =
    let rest = mem_on_socket socket_id segs in
    if ms.socket_id == socket_id && ltb 0 ms.len then true else rest
