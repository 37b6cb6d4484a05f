-- ===== src/Hugepage/Joined.antt =====
-- The loop that joins the pages to segments.
use rte_demo.Prelude.{
  ℕ, ◌+◌, ◌-◌, ◌≤◌, ◌<◌, ◌≡◌, refl, sym, ◌∙◌, ◌⊎◌, inl, inr, arith, List, [], ◌∷◌, length, set,
  Option, none, some, Bool-cases, true, false, ◌==◌, ==_iff, length-set, get_or-set_self,
  get_or-set_ne,
}
use rte_demo.Malloc.Sockets.{max_memseg}
use rte_demo.Hugepage.Types.{HugepageFile, Segment, no_segment}
use rte_demo.Hugepage.Segments.{is_new_memseg, segment_of, longer, Filled, with_page, fill_memsegs}
use rte_demo.Hugepage.Contiguous.{
  IsPage, IsLast, Grows, Grows-refl, Grows-trans, Lies-Grows, segment, needed, AllPages, Placed,
  Begun, Fills, joins_lem, longer-IsLast, segment_of-IsLast,
}

-- A page that begins the segment `n`.
new-Fills :
    (memseg : List Segment) (n : ℕ) (prev : Option HugepageFile) (page : HugepageFile)
    (pages : List HugepageFile) (f : Filled)
    → length memseg ≡ max_memseg
    → n < max_memseg
    → is_new_memseg prev page ≡ true
    → Fills (set memseg n (segment_of page)) (n + 1) (some page) pages f
    → Fills memseg n prev (page ∷ pages) (with_page (record page { memseg_id = n }) f)
new-Fills memseg n prev page pages f full room new v = record {
  kept = λ j h. v.kept j (omega (arith, h)) ∙ other j (omega (arith, h));
  grows = λ j h.
      Grows-refl (segment memseg j) (segment f.memseg j)
        (v.kept j (omega (arith, h)) ∙ other j (omega (arith, h)));
  outcome = elim (v.outcome) [
    | inl (h, done, placed) ↦ inl (
      rw new (omega (arith, h)),
      done,
      (
        (refl, room, Lies-Grows page (segment_of page) (segment f.memseg n) grown last.lies),
        placed,
      ),
    )
    | inr (h, stopped) ↦ inr (rw new (omega (arith, h)), stopped)
  ];
}
  where
    other : (j : ℕ) → j < n → segment (set memseg n (segment_of page)) j ≡ segment memseg j
    other j h =
        get_or-set_ne memseg n j (segment_of page) no_segment (λ e. absurd (omega (arith, e, h)))

    here : segment (set memseg n (segment_of page)) n ≡ segment_of page
    here = get_or-set_self memseg n (segment_of page) no_segment (omega (arith, full, room))

    last : IsLast page (segment_of page)
    last = segment_of-IsLast page

    grown : Grows (segment_of page) (segment f.memseg n)
    grown = rw (sym here) (v.grows n refl)

-- A page that goes on with the segment `m`.
same-Fills :
    (memseg : List Segment) (n m : ℕ) (prev page : HugepageFile) (pages : List HugepageFile)
    (f : Filled)
    → m + 1 ≡ n
    → length memseg ≡ max_memseg
    → m < max_memseg
    → is_new_memseg (some prev) page ≡ false
    → IsLast page (longer (segment memseg m)) × Grows (segment memseg m) (longer (segment memseg m))
    → Fills (set memseg m (longer (segment memseg m))) n (some page) pages f
    → Fills memseg n (some prev) (page ∷ pages) (with_page (record page { memseg_id = m }) f)
same-Fills memseg n m prev page pages f next full room old (last, more) v = record {
  kept = λ j h. v.kept j h ∙ other j (omega (arith, next, h));
  grows = λ j h.
      rw (same_index j h) (
        Grows-trans (segment memseg m) (longer (segment memseg m)) (segment f.memseg m) more grown);
  outcome = elim (v.outcome) [
    | inl (h, done, placed) ↦ inl (
      rw old (omega (arith, h)),
      done,
      (
        (
          refl,
          room,
          Lies-Grows page (longer (segment memseg m)) (segment f.memseg m) grown last.lies,
        ),
        placed,
      ),
    )
    | inr (h, stopped) ↦ inr (rw old (omega (arith, h)), stopped)
  ];
}
  where
    other :
        (j : ℕ) → j < m → segment (set memseg m (longer (segment memseg m))) j ≡ segment memseg j
    other j h =
        get_or-set_ne memseg m j (longer (segment memseg m)) no_segment
          (λ e. absurd (omega (arith, e, h)))

    here : segment (set memseg m (longer (segment memseg m))) m ≡ longer (segment memseg m)
    here =
        get_or-set_self memseg m (longer (segment memseg m)) no_segment (omega (arith, full, room))

    grown : Grows (longer (segment memseg m)) (segment f.memseg m)
    grown = rw (sym here) (v.grows m next)

    same_index : (j : ℕ) → j + 1 ≡ n → j ≡ m
    same_index j h = omega (arith, h, next)

new-Begun :
    (memseg : List Segment) (n : ℕ) (page : HugepageFile)
    → length memseg ≡ max_memseg
    → n < max_memseg
    → IsPage page
    → Begun (set memseg n (segment_of page)) (n + 1) (some page)
new-Begun memseg n page full room w = (
  omega arith,
  w,
  rw (back, get_or-set_self memseg n (segment_of page) no_segment (omega (arith, full, room)))
      (segment_of-IsLast page),
)
  where
    back : n + 1 - 1 ≡ n
    back = omega arith

-- The loop goes on with the last segment.
old-Fills :
    (memseg : List Segment) (n : ℕ) (prev : Option HugepageFile) (page : HugepageFile)
    (pages : List HugepageFile)
    → length memseg ≡ max_memseg
    → n ≤ max_memseg
    → Begun memseg n prev
    → IsPage page
    → is_new_memseg prev page ≡ false
    → (Begun (set memseg (n - 1) (longer (segment memseg (n - 1)))) n (some page)
        → Fills (set memseg (n - 1) (longer (segment memseg (n - 1)))) n (some page) pages (
            fill_memsegs
              (set memseg (n - 1) (longer (segment memseg (n - 1))))
              n
              (some page)
              pages))
    → Fills memseg n prev (page ∷ pages) (
        with_page
          (record page { memseg_id = n - 1 })
          (fill_memsegs (set memseg (n - 1) (longer (segment memseg (n - 1)))) n (some page) pages))
unfolding is_new_memseg
old-Fills memseg n none page pages full room b w old go = absurd (ground (arith, old))
old-Fills memseg n (some prev) page pages full room (positive, v, last) w old go =
    let grown =
      longer-IsLast prev page (segment memseg (n - 1)) w (joins_lem prev page v w old) last in
    same-Fills memseg n (n - 1) prev page pages
      (fill_memsegs (set memseg (n - 1) (longer (segment memseg (n - 1)))) n (some page) pages)
      (omega (arith, positive)) full (omega (arith, positive, room)) old grown
      (go (
        positive,
        w,
        rw
            (get_or-set_self memseg (n - 1) (longer (segment memseg (n - 1))) no_segment
              (omega (arith, positive, full, room)))
            grown.0,
      ))

-- The loop from a state that it reaches.
fill_memsegs-Fills :
    (pages : List HugepageFile) (memseg : List Segment) (n : ℕ) (prev : Option HugepageFile)
    → length memseg ≡ max_memseg
    → n ≤ max_memseg
    → Begun memseg n prev
    → AllPages pages
    → Fills memseg n prev pages (fill_memsegs memseg n prev pages)
unfolding fill_memsegs
fill_memsegs-Fills [] memseg n prev full room b w = record {
  kept = λ j h. refl;
  grows = λ j h. Grows-refl (segment memseg j) (segment memseg j) refl;
  outcome = inl (omega (arith, room), refl, refl);
}
fill_memsegs-Fills (page ∷ pages) memseg n prev full room b (w, ws) =
    elim (Bool-cases (is_new_memseg prev page)) [
      | inl new ↦ elim (Bool-cases (n == max_memseg)) [
        | inl all ↦
            rw (new, all)
              (record {
                kept = λ j h. refl;
                grows = λ j h. Grows-refl (segment memseg j) (segment memseg j) refl;
                outcome = inr (rw new (omega (arith, (==_iff n max_memseg).0 all)), refl);
              })
        | inr left ↦
            rw (new, left)
              (new-Fills memseg n prev page pages
                (fill_memsegs (set memseg n (segment_of page)) (n + 1) (some page) pages) full
                (ground (arith, left, room)) new
                (fill_memsegs-Fills pages (set memseg n (segment_of page)) (n + 1) (some page)
                  (length-set memseg n (segment_of page) ∙ full) (ground (arith, left, room))
                  (new-Begun memseg n page full (ground (arith, left, room)) w) ws))
      ]
      | inr old ↦ rw old (
          old-Fills memseg n prev page pages full room b w old (λ more.
            fill_memsegs-Fills pages (set memseg (n - 1) (longer (segment memseg (n - 1)))) n
              (some page) (length-set memseg (n - 1) (longer (segment memseg (n - 1))) ∙ full) room
              more ws))
    ]

-- The whole loop on pages whose addresses do not wrap. Where at most 256 segments are needed it ends
-- with all pages done: only the number of its segment is new in each, and each lies in its segment,
-- whose socket and page size are its own, as far from the start in physical as in virtual addresses.
-- Where more are needed it stops before the last page.
pub fill_memsegs_lem :
    (pages : List HugepageFile) (memseg : List Segment)
    → length memseg ≡ max_memseg
    → AllPages pages
    → ((needed none pages ≤ max_memseg)
        × ((fill_memsegs memseg 0 none pages).complete ≡ true)
        × Placed
            (fill_memsegs memseg 0 none pages).memseg
            pages
            (fill_memsegs memseg 0 none pages).pages)
      ⊎ ((max_memseg < needed none pages) × ((fill_memsegs memseg 0 none pages).complete ≡ false))
fill_memsegs_lem pages memseg full w =
    elim ((fill_memsegs-Fills pages memseg 0 none full (omega arith) tt w).outcome) [
      | inl (h, done, placed) ↦ inl (omega (arith, h), done, placed)
      | inr (h, stopped) ↦ inr (omega (arith, h), stopped)
    ]
