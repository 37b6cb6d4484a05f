-- ===== src/Hugepage/Kept.antt =====
-- What `unmap_unneeded_hugepages` keeps, and what `copy_hugepages_to_shared_mem` then copies.
use rte_demo.Prelude.{
  ℕ, zero, suc, ◌+◌, ◌≤◌, ◌<◌, min, ◌≡◌, ◌≢◌, refl, sym, ap, ◌∙◌, ◌⊎◌, inl, inr, arith, List, [],
  ◌∷◌, length, get_or, Bool, true, Bool-cases, ltb,
}
use rte_demo.Hugepage.Types.{HugepageFile, HugepageInfo}
use rte_demo.Hugepage.Pages.{is_of, unmap_of, unmap_sockets, unmap_unneeded_hugepages}
use rte_demo.Hugepage.Thinned.{
  present, kept, Thinned, Thinned-refl, Thinned-trans, present-Thinned, unmap_of_lem, unmap_of_kept,
  unmap_of_other,
}

-- All pages of a size are mapped, on the sockets from `socket` on.
abbrev IsMapped : (sz socket : ℕ) → List HugepageFile → Type 0
IsMapped sz socket ps = (s : ℕ) → socket ≤ s → kept sz s ps ≡ present sz s ps

abbrev Listed : HugepageInfo → List HugepageInfo → Type 0
Listed info [] = ⊥
Listed info (i ∷ is) = (info ≡ i) ⊎ Listed info is

abbrev IsSizeless : (sz : ℕ) → List HugepageInfo → Type 0
IsSizeless sz [] = Unit
IsSizeless sz (i ∷ is) = (sz ≢ i.hugepage_sz) × IsSizeless sz is

-- No size is there twice.
abbrev pub Distinct : List HugepageInfo → Type 0
Distinct [] = Unit
Distinct (i ∷ is) = IsSizeless i.hugepage_sz is × Distinct is

module _ (unlinked : HugepageFile → Bool) (removed : (p : HugepageFile) → unlinked p ≡ true) where
  module _ (sz : ℕ) where
    sockets_lem :
        (socket : ℕ) (ns : List ℕ) (ps : List HugepageFile)
        → ((unmap_sockets unlinked sz socket ns ps).1 ≡ true)
          × Thinned ps (unmap_sockets unlinked sz socket ns ps).0
    unfolding unmap_sockets
    sockets_lem socket [] ps = (refl, Thinned-refl ps)
    sockets_lem socket (n ∷ ns) ps =
        let first = unmap_of_lem unlinked removed sz socket n ps in
        let ps' = (unmap_of unlinked sz socket n ps).0 in
        let rest = sockets_lem (socket + 1) ns ps' in
        rw first.0 (
          rest.0,
          Thinned-trans ps ps' (unmap_sockets unlinked sz (socket + 1) ns ps').0 first.1 rest.1,
        )

    sockets_other :
        (sz' s socket : ℕ) (ns : List ℕ) (ps : List HugepageFile)
        → (sz' ≢ sz) ⊎ (s < socket)
        → kept sz' s (unmap_sockets unlinked sz socket ns ps).0 ≡ kept sz' s ps
    unfolding unmap_sockets
    sockets_other sz' s socket [] ps ne = refl
    sockets_other sz' s socket (n ∷ ns) ps ne =
        rw (unmap_of_lem unlinked removed sz socket n ps).0 (
          sockets_other sz' s (socket + 1) ns (unmap_of unlinked sz socket n ps).0 (later ne)
          ∙ unmap_of_other unlinked removed sz socket sz' s n ps (apart ne))
      where
        later : (sz' ≢ sz) ⊎ (s < socket) → (sz' ≢ sz) ⊎ (s < socket + 1)
        later (inl h) = inl h
        later (inr h) = inr (omega arith)

        apart : (sz' ≢ sz) ⊎ (s < socket) → (sz' ≢ sz) ⊎ (s ≢ socket)
        apart (inl h) = inl h
        apart (inr h) = inr (λ e. absurd (omega (arith, h, e)))

    sockets_kept :
        (j s socket : ℕ) (ns : List ℕ) (ps : List HugepageFile)
        → j ≡ socket + s
        → s < length ns
        → IsMapped sz socket ps
        → kept sz j (unmap_sockets unlinked sz socket ns ps).0
          ≡ min (get_or ns s 0) (present sz j ps)
    unfolding unmap_sockets
    sockets_kept j s socket [] ps e h m = absurd (omega (arith, h))
    sockets_kept j zero socket (n ∷ ns) ps e h m =
        let here : j ≡ socket = omega (arith, e) in
        rw (unmap_of_lem unlinked removed sz socket n ps).0 (
          sockets_other sz j (socket + 1) ns (unmap_of unlinked sz socket n ps).0
            (inr (omega (arith, e)))
          ∙ rw here (unmap_of_kept unlinked removed sz socket n ps (m socket (omega arith))))
    sockets_kept j (suc s) socket (n ∷ ns) ps e h m =
        let ps' = (unmap_of unlinked sz socket n ps).0 in
        let first = unmap_of_lem unlinked removed sz socket n ps in
        rw first.0 (
          sockets_kept j s (socket + 1) ns ps' (omega (arith, e)) (omega (arith, h)) (λ t k.
            unmap_of_other unlinked removed sz socket sz t n ps
              (inr (λ f. absurd (omega (arith, f, k))))
            ∙ m t (omega (arith, k))
            ∙ sym (present-Thinned sz t ps ps' first.1))
          ∙ ap (λ (x : ℕ). min (get_or ns s 0) x) (present-Thinned sz j ps ps' first.1))

  unneeded_lem :
      (hpi : List HugepageInfo) (ps : List HugepageFile)
      → ((unmap_unneeded_hugepages unlinked hpi ps).1 ≡ true)
        × Thinned ps (unmap_unneeded_hugepages unlinked hpi ps).0
  unfolding unmap_unneeded_hugepages
  unneeded_lem [] ps = (refl, Thinned-refl ps)
  unneeded_lem (i ∷ is) ps =
      let first = sockets_lem i.hugepage_sz 0 i.num_pages ps in
      let ps' = (unmap_sockets unlinked i.hugepage_sz 0 i.num_pages ps).0 in
      let rest = unneeded_lem is ps' in
      rw first.0
        (rest.0, Thinned-trans ps ps' (unmap_unneeded_hugepages unlinked is ps').0 first.1 rest.1)

  unneeded_other :
      (sz s : ℕ) (hpi : List HugepageInfo) (ps : List HugepageFile)
      → IsSizeless sz hpi
      → kept sz s (unmap_unneeded_hugepages unlinked hpi ps).0 ≡ kept sz s ps
  unfolding unmap_unneeded_hugepages
  unneeded_other sz s [] ps h = refl
  unneeded_other sz s (i ∷ is) ps (ne, h) = rw (sockets_lem i.hugepage_sz 0 i.num_pages ps).0 (
      unneeded_other sz s is (unmap_sockets unlinked i.hugepage_sz 0 i.num_pages ps).0 h
      ∙ sockets_other i.hugepage_sz sz s 0 i.num_pages ps (inl ne))

  Listed-sizes :
      (sz : ℕ) (info : HugepageInfo) (is : List HugepageInfo)
      → IsSizeless sz is
      → Listed info is
      → info.hugepage_sz ≢ sz
  Listed-sizes sz info [] h l = absurd l
  Listed-sizes sz info (i ∷ is) (ne, h) (inl e) =
      λ f. ne (sym f ∙ ap (λ (x : HugepageInfo). x.hugepage_sz) e)
  Listed-sizes sz info (i ∷ is) (ne, h) (inr l) = Listed-sizes sz info is h l

  unneeded_kept :
      (info : HugepageInfo) (s : ℕ) (hpi : List HugepageInfo) (ps : List HugepageFile)
      → Distinct hpi
      → ((i : HugepageInfo) → Listed i hpi → IsMapped i.hugepage_sz 0 ps)
      → Listed info hpi
      → s < length info.num_pages
      → kept info.hugepage_sz s (unmap_unneeded_hugepages unlinked hpi ps).0
        ≡ min (get_or info.num_pages s 0) (present info.hugepage_sz s ps)
  unfolding unmap_unneeded_hugepages
  unneeded_kept info s [] ps d m l h = absurd l
  unneeded_kept info s (i ∷ is) ps (apart, d) m (inl e) h = rw e (
      rw (sockets_lem i.hugepage_sz 0 i.num_pages ps).0 (
        unneeded_other i.hugepage_sz s is (unmap_sockets unlinked i.hugepage_sz 0 i.num_pages ps).0
          apart
        ∙ sockets_kept i.hugepage_sz s s 0 i.num_pages ps (omega arith) (rw e at h)
            (m i (inl refl))))
  unneeded_kept info s (i ∷ is) ps (apart, d) m (inr l) h =
      let ps' = (unmap_sockets unlinked i.hugepage_sz 0 i.num_pages ps).0 in
      let first = sockets_lem i.hugepage_sz 0 i.num_pages ps in
      rw first.0 (
        unneeded_kept info s is ps' d
          (λ x k t b.
            sockets_other i.hugepage_sz x.hugepage_sz t 0 i.num_pages ps
              (inl (Listed-sizes i.hugepage_sz x is apart k))
            ∙ m x (inr k) t b
            ∙ sym (present-Thinned x.hugepage_sz t ps ps' first.1))
          l h
        ∙ ap (λ (x : ℕ). min (get_or info.num_pages s 0) x)
            (present-Thinned info.hugepage_sz s ps ps' first.1))

-- What is left of the pages: of each size of the table and each socket as many are mapped as are
-- wanted, or all if there are no more; of the other sizes all.
pub record IsReduced (hpi : List HugepageInfo) (ps qs : List HugepageFile) : Type 0 where
  pub same : Thinned ps qs
  pub wanted :
      (info : HugepageInfo) (s : ℕ)
      → Listed info hpi
      → s < length info.num_pages
      → kept info.hugepage_sz s qs ≡ min (get_or info.num_pages s 0) (present info.hugepage_sz s ps)
  pub others : (sz s : ℕ) → IsSizeless sz hpi → kept sz s qs ≡ present sz s ps

abbrev pub AllMapped : List HugepageFile → Type 0
AllMapped [] = Unit
AllMapped (p ∷ ps) = (0 < p.final_va) × AllMapped ps

AllMapped-kept : (sz s : ℕ) (ps : List HugepageFile) → AllMapped ps → kept sz s ps ≡ present sz s ps
AllMapped-kept sz s [] h = refl
AllMapped-kept sz s (p ∷ ps) (h, k) = elim (Bool-cases (is_of p sz s)) [
  | inl e ↦ rw (e, mapped) (omega (arith, AllMapped-kept sz s ps k))
  | inr e ↦ rw e (omega (arith, AllMapped-kept sz s ps k))
]
  where
    mapped : ltb 0 p.final_va ≡ true
    mapped = ground arith

-- Where every page is mapped, no size is twice in the table and every file can be removed,
-- unmap_unneeded_hugepages succeeds; it changes nothing but the addresses of the pages that it
-- unmaps, and leaves of each size of the table and each socket as many pages mapped as are wanted,
-- or all if there are no more, and all pages of other sizes.
pub unmap_unneeded_hugepages_lem :
    (unlinked : HugepageFile → Bool) (hpi : List HugepageInfo) (ps : List HugepageFile)
    → ((p : HugepageFile) → unlinked p ≡ true)
    → Distinct hpi
    → AllMapped ps
    → ((unmap_unneeded_hugepages unlinked hpi ps).1 ≡ true)
      × IsReduced hpi ps (unmap_unneeded_hugepages unlinked hpi ps).0
unmap_unneeded_hugepages_lem unlinked hpi ps removed d m = (
  (unneeded_lem unlinked removed hpi ps).0,
  record {
    same = (unneeded_lem unlinked removed hpi ps).1;
    wanted = λ info s l h.
        unneeded_kept unlinked removed info s hpi ps d
          (λ i k t b. AllMapped-kept i.hugepage_sz t ps m) l h;
    others = λ sz s h. unneeded_other unlinked removed sz s hpi ps h ∙ AllMapped-kept sz s ps m;
  },
)
