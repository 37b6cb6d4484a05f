-- ===== src/Hugepage/Segments.antt =====
-- The segments that the huge pages are joined to: the last loop of `rte_eal_hugepage_init` of
-- lib/linuxapp/eal/eal_memory.c.
use rte_demo.Prelude.{
  ℕ, ◌+◌, ◌-◌, List, [], ◌∷◌, get_or, set, Option, none, some, Bool, true, false, not, ◌||◌, ◌==◌,
  if◌then◌else◌,
}
use rte_demo.Word.{add64, sub64}
use rte_demo.Malloc.Sockets.{max_memseg}
use rte_demo.Hugepage.Types.{HugepageFile, Segment, no_segment}

-- "if this is a new section, create a new memseg"; there is no page before the first.
unfoldable pub is_new_memseg : Option HugepageFile → HugepageFile → Bool
is_new_memseg none page = true
is_new_memseg (some prev) page =
    not (page.socket_id == prev.socket_id)
    || not (page.size == prev.size)
    || not (sub64 page.physaddr prev.physaddr == page.size)
    || not (sub64 page.final_va prev.final_va == page.size)

abbrev pub segment_of : HugepageFile → Segment
segment_of page = record {
  iova = page.physaddr;
  addr = page.final_va;
  len = page.size;
  hugepage_sz = page.size;
  socket_id = page.socket_id;
}

abbrev pub longer : Segment → Segment
longer seg = record seg { len = add64 seg.len seg.hugepage_sz }

-- The array of segments, the pages with their segments, and whether all pages were done.
pub record Filled : Type 0 where
  pub memseg : List Segment
  pub pages : List HugepageFile
  pub complete : Bool

abbrev pub with_page : HugepageFile → Filled → Filled
with_page page f = record f { pages = page ∷ f.pages }

-- The loop; `n` segments were begun, so that `j` is `n - 1`.
unfoldable pub fill_memsegs :
    List Segment → (n : ℕ) → Option HugepageFile → List HugepageFile → Filled
unfolding is_new_memseg
fill_memsegs memseg n prev [] = record { memseg = memseg; pages = []; complete = true }
fill_memsegs memseg n prev (page ∷ pages) =
    let begun : HugepageFile = record page { memseg_id = n } in
    let joined : HugepageFile = record page { memseg_id = n - 1 } in
    let new =
      with_page begun (fill_memsegs (set memseg n (segment_of page)) (n + 1) (some page) pages) in
    let same = with_page joined (
      fill_memsegs (set memseg (n - 1) (longer (get_or memseg (n - 1) no_segment))) n (some page)
        pages) in
    if is_new_memseg prev page
    then if n == max_memseg
      then record { memseg = memseg; pages = page ∷ pages; complete = false }
      else new
    else same
