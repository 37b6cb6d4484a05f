-- ===== src/Hugepage/Contiguous.antt =====
-- Each segment is contiguous, in virtual and in physical addresses, and holds its pages.
use rte_demo.Prelude.{
  ℕ, ◌+◌, ◌-◌, ◌^◌, ◌≤◌, ◌<◌, ◌≡◌, refl, sym, ◌∙◌, ◌⊎◌, arith, List, [], ◌∷◌, get_or, Option, none,
  some, Bool, true, false, not, if◌then◌else◌,
}
use rte_demo.Word.{sub64, add64}
use rte_demo.Malloc.Sockets.{max_memseg}
use rte_demo.Hugepage.Types.{HugepageFile, Segment, no_segment}
use rte_demo.Hugepage.Segments.{is_new_memseg, segment_of, longer, Filled}

-- The addresses of a page do not wrap.
pub record IsPage (page : HugepageFile) : Type 0 where
  pub virtual_word : page.final_va + page.size < 2 ^ 64
  pub physical_word : page.physaddr + page.size < 2 ^ 64

-- The page lies in the segment, as far from its start in physical as in virtual addresses.
pub record Lies (page : HugepageFile) (seg : Segment) : Type 0 where
  pub socket : seg.socket_id ≡ page.socket_id
  pub size : seg.hugepage_sz ≡ page.size
  pub above : seg.addr ≤ page.final_va
  pub below : page.final_va + page.size ≤ seg.addr + seg.len
  pub parallel : page.physaddr + seg.addr ≡ seg.iova + page.final_va

-- The page is the last one of the segment.
pub record IsLast (page : HugepageFile) (seg : Segment) : Type 0 where
  pub lies : Lies page seg
  pub last : seg.addr + seg.len ≡ page.final_va + page.size

pub record Grows (a b : Segment) : Type 0 where
  pub socket : b.socket_id ≡ a.socket_id
  pub size : b.hugepage_sz ≡ a.hugepage_sz
  pub addr : b.addr ≡ a.addr
  pub iova : b.iova ≡ a.iova
  pub len : a.len ≤ b.len

pub Grows-refl : (a b : Segment) → b ≡ a → Grows a b
Grows-refl a b e =
    rw e (record { socket = refl; size = refl; addr = refl; iova = refl; len = omega arith })

pub Grows-trans : (a b c : Segment) → Grows a b → Grows b c → Grows a c
Grows-trans a b c g h = record {
  socket = h.socket ∙ g.socket;
  size = h.size ∙ g.size;
  addr = h.addr ∙ g.addr;
  iova = h.iova ∙ g.iova;
  len = omega (arith, g.len, h.len);
}

pub Lies-Grows : (page : HugepageFile) (a b : Segment) → Grows a b → Lies page a → Lies page b
Lies-Grows page a b g l = record {
  socket = g.socket ∙ l.socket;
  size = g.size ∙ l.size;
  above = omega (arith, g.addr, l.above);
  below = omega (arith, g.addr, g.len, l.below);
  parallel = omega (arith, g.addr, g.iova, l.parallel);
}

-- The segment at an index.
abbrev pub segment : List Segment → ℕ → Segment
segment memseg i = get_or memseg i no_segment

-- The number of segments that the pages need.
abbrev pub needed : Option HugepageFile → List HugepageFile → ℕ
needed prev [] = 0
needed prev (page ∷ pages) = (if is_new_memseg prev page then 1 else 0) + needed (some page) pages

abbrev pub AllPages : List HugepageFile → Type 0
AllPages [] = Unit {0}
AllPages (page ∷ pages) = IsPage page × AllPages pages

-- The pages with their segments: each lies in its own.
abbrev pub Placed : List Segment → List HugepageFile → List HugepageFile → Type 0
Placed memseg [] pages' = pages' ≡ []
Placed memseg (page ∷ pages) [] = ⊥
Placed memseg (page ∷ pages) (page' ∷ pages') =
    ((page' ≡ record page { memseg_id = page'.memseg_id })
      × (page'.memseg_id < max_memseg)
      × Lies page (segment memseg page'.memseg_id))
    × Placed memseg pages pages'

-- What the loop has done before: `n` segments, of which the last ends with the previous page.
abbrev pub Begun : List Segment → ℕ → Option HugepageFile → Type 0
Begun memseg n none = Unit {0}
Begun memseg n (some prev) = (0 < n) × IsPage prev × IsLast prev (segment memseg (n - 1))

pub record Fills (memseg : List Segment) (n : ℕ) (prev : Option HugepageFile)
    (pages : List HugepageFile) (f : Filled) : Type 0 where
  pub kept : (j : ℕ) → j + 1 < n → segment f.memseg j ≡ segment memseg j
  pub grows : (j : ℕ) → j + 1 ≡ n → Grows (segment memseg j) (segment f.memseg j)
  pub outcome :
      ((n + needed prev pages ≤ max_memseg) × (f.complete ≡ true) × Placed f.memseg pages f.pages)
      ⊎ ((max_memseg < n + needed prev pages) × (f.complete ≡ false))

-- A page that goes on where the one before ends.
pub record Joins (prev page : HugepageFile) : Type 0 where
  pub socket : page.socket_id ≡ prev.socket_id
  pub size : page.size ≡ prev.size
  pub physical : page.physaddr ≡ prev.physaddr + prev.size
  pub virtual : page.final_va ≡ prev.final_va + prev.size

pub true_of_not : (b : Bool) → not b ≡ false → b ≡ true
true_of_not true e = refl
true_of_not false e = ground (arith, e)

pub joins_lem :
    (prev page : HugepageFile)
    → IsPage prev
    → IsPage page
    → is_new_memseg (some prev) page ≡ false
    → Joins prev page
unfolding is_new_memseg
joins_lem prev page v w e = record {
  socket = ground (arith, e);
  size = ground (arith, e);
  physical = omega (arith, same_size, physical_gap, v.physical_word, w.physical_word);
  virtual = omega (arith, same_size, virtual_gap, v.virtual_word, w.virtual_word);
}
  where
    same_size : page.size ≡ prev.size
    same_size = ground (arith, e)

    physical_gap : sub64 page.physaddr prev.physaddr ≡ page.size
    physical_gap = ground (arith, e)

    virtual_gap : sub64 page.final_va prev.final_va ≡ page.size
    virtual_gap = ground (arith, e)

pub longer-IsLast :
    (prev page : HugepageFile) (seg : Segment)
    → IsPage page
    → Joins prev page
    → IsLast prev seg
    → IsLast page (longer seg) × Grows seg (longer seg)
longer-IsLast prev page seg w j l = (
  record {
    lies = record {
      socket = l.lies.socket ∙ sym j.socket;
      size = l.lies.size ∙ sym j.size;
      above = omega (arith, l.lies.above, j.virtual);
      below = omega (arith, sum, l.last, l.lies.size, j.size, j.virtual);
      parallel = omega (arith, l.lies.parallel, j.virtual, j.physical);
    };
    last = omega (arith, sum, l.last, l.lies.size, j.size, j.virtual);
  },
  record { socket = refl; size = refl; addr = refl; iova = refl; len = omega (arith, sum) },
)
  where
    sum : add64 seg.len seg.hugepage_sz ≡ seg.len + seg.hugepage_sz
    sum = omega (arith, l.last, l.lies.size, j.size, j.virtual, w.virtual_word)

pub segment_of-IsLast : (page : HugepageFile) → IsLast page (segment_of page)
segment_of-IsLast page = record {
  lies = record {
    socket = refl;
    size = refl;
    above = omega arith;
    below = omega arith;
    parallel = omega arith;
  };
  last = refl;
}
