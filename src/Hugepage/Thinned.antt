-- ===== src/Hugepage/Thinned.antt =====
-- One pass of `unmap_unneeded_hugepages`: which pages of one size on one socket are kept.
use rte_demo.Prelude.{
  ℕ, ◌+◌, ◌-◌, ◌≤◌, min, ◌≡◌, ◌≢◌, refl, ap, ◌∙◌, ◌⊎◌, inl, inr, arith, List, [], ◌∷◌, Bool,
  Bool-cases, true, false, ◌&&◌, ltb, ◌==◌, if◌then◌else◌,
}
use rte_demo.Hugepage.Types.{HugepageFile}
use rte_demo.Hugepage.Pages.{is_of, unmap_of}

-- How many pages of a size there are on a socket, and how many of them are mapped.
abbrev pub one_if : Bool → ℕ
one_if b = if b then 1 else 0

abbrev pub present : (sz socket : ℕ) → List HugepageFile → ℕ
present sz socket [] = 0
present sz socket (page ∷ pages) = one_if (is_of page sz socket) + present sz socket pages

abbrev pub kept : (sz socket : ℕ) → List HugepageFile → ℕ
kept sz socket [] = 0
kept sz socket (page ∷ pages) =
    one_if (is_of page sz socket && ltb 0 page.final_va) + kept sz socket pages

-- The same pages, of which some are no longer mapped.
abbrev pub Thinned : List HugepageFile → List HugepageFile → Type 0
Thinned [] [] = Unit
Thinned [] (q ∷ qs) = ⊥
Thinned (p ∷ ps) [] = ⊥
Thinned (p ∷ ps) (q ∷ qs) = ((q ≡ p) ⊎ (q ≡ record p { final_va = 0 })) × Thinned ps qs

pub Thinned-refl : (ps : List HugepageFile) → Thinned ps ps
Thinned-refl [] = tt
Thinned-refl (p ∷ ps) = (inl refl, Thinned-refl ps)

pub Thinned-trans : (ps qs rs : List HugepageFile) → Thinned ps qs → Thinned qs rs → Thinned ps rs
Thinned-trans [] [] rs h k = k
Thinned-trans [] (q ∷ qs) rs h k = absurd h
Thinned-trans (p ∷ ps) [] rs h k = absurd h
Thinned-trans (p ∷ ps) (q ∷ qs) [] h k = absurd k
Thinned-trans (p ∷ ps) (q ∷ qs) (r ∷ rs) (inl e, h) (inl f, k) =
    (inl (f ∙ e), Thinned-trans ps qs rs h k)
Thinned-trans (p ∷ ps) (q ∷ qs) (r ∷ rs) (inl e, h) (inr f, k) =
    (inr (f ∙ ap (λ (x : HugepageFile). record x { final_va = 0 }) e), Thinned-trans ps qs rs h k)
Thinned-trans (p ∷ ps) (q ∷ qs) (r ∷ rs) (inr e, h) (inl f, k) =
    (inr (f ∙ e), Thinned-trans ps qs rs h k)
Thinned-trans (p ∷ ps) (q ∷ qs) (r ∷ rs) (inr e, h) (inr f, k) =
    (inr (f ∙ ap (λ (x : HugepageFile). record x { final_va = 0 }) e), Thinned-trans ps qs rs h k)

pub present-Thinned :
    (sz socket : ℕ) (ps qs : List HugepageFile)
    → Thinned ps qs
    → present sz socket qs ≡ present sz socket ps
present-Thinned sz socket [] [] h = refl
present-Thinned sz socket [] (q ∷ qs) h = absurd h
present-Thinned sz socket (p ∷ ps) [] h = absurd h
present-Thinned sz socket (p ∷ ps) (q ∷ qs) (inl e, h) =
    rw (e, present-Thinned sz socket ps qs h) refl
present-Thinned sz socket (p ∷ ps) (q ∷ qs) (inr e, h) =
    rw (e, present-Thinned sz socket ps qs h) refl

kept-le : (sz socket : ℕ) (ps : List HugepageFile) → kept sz socket ps ≤ present sz socket ps
kept-le sz socket [] = omega arith
kept-le sz socket (p ∷ ps) = elim (Bool-cases (is_of p sz socket)) [
  | inl e ↦ elim (Bool-cases (ltb 0 p.final_va)) [
    | inl f ↦ rw (e, f) (omega (arith, kept-le sz socket ps))
    | inr f ↦ rw (e, f) (omega (arith, kept-le sz socket ps))
  ]
  | inr e ↦ rw e (omega (arith, kept-le sz socket ps))
]

rest_mapped :
    (sz socket : ℕ) (p : HugepageFile) (ps : List HugepageFile)
    → kept sz socket (p ∷ ps) ≡ present sz socket (p ∷ ps)
    → kept sz socket ps ≡ present sz socket ps
rest_mapped sz socket p ps h = elim (Bool-cases (is_of p sz socket)) [
  | inl e ↦ elim (Bool-cases (ltb 0 p.final_va)) [
    | inl g ↦ omega (arith, rw (e, g) at h)
    | inr g ↦ absurd (omega (arith, rw (e, g) at h, kept-le sz socket ps))
  ]
  | inr e ↦ omega (arith, rw e at h)
]

module _ (unlinked : HugepageFile → Bool) (removed : (p : HugepageFile) → unlinked p ≡ true)
    (sz socket : ℕ) where
  pub unmap_of_lem :
      (left : ℕ) (ps : List HugepageFile)
      → ((unmap_of unlinked sz socket left ps).1 ≡ true)
        × Thinned ps (unmap_of unlinked sz socket left ps).0
  unfolding unmap_of
  unmap_of_lem left [] = (refl, tt)
  unmap_of_lem left (p ∷ ps) = elim (Bool-cases (is_of p sz socket)) [
    | inl e ↦ elim (Bool-cases (left == 0)) [
      | inl f ↦
          rw (e, f, removed p) ((unmap_of_lem left ps).0, (inr refl, (unmap_of_lem left ps).1))
      | inr f ↦
          rw (e, f) ((unmap_of_lem (left - 1) ps).0, (inl refl, (unmap_of_lem (left - 1) ps).1))
    ]
    | inr e ↦ rw e ((unmap_of_lem left ps).0, (inl refl, (unmap_of_lem left ps).1))
  ]

  -- Where all of them are mapped, as many are kept as are wanted and there are.
  pub unmap_of_kept :
      (left : ℕ) (ps : List HugepageFile)
      → kept sz socket ps ≡ present sz socket ps
      → kept sz socket (unmap_of unlinked sz socket left ps).0 ≡ min left (present sz socket ps)
  unfolding unmap_of
  unmap_of_kept left [] h = omega arith
  unmap_of_kept left (p ∷ ps) h = elim (Bool-cases (is_of p sz socket)) [
    | inl e ↦ elim (Bool-cases (left == 0)) [
      | inl f ↦
          rw (e, f, removed p)
            (ground (arith, f, unmap_of_kept left ps (rest_mapped sz socket p ps h)))
      | inr f ↦ elim (Bool-cases (ltb 0 p.final_va)) [
        | inl g ↦
            rw (e, f, g)
              (ground (arith, f, unmap_of_kept (left - 1) ps (rest_mapped sz socket p ps h)))
        | inr g ↦ absurd (omega (arith, rw (e, g) at h, kept-le sz socket ps))
      ]
    ]
    | inr e ↦ rw e (ground (arith, unmap_of_kept left ps (rest_mapped sz socket p ps h)))
  ]

  pub unmap_of_other :
      (sz' socket' left : ℕ) (ps : List HugepageFile)
      → (sz' ≢ sz) ⊎ (socket' ≢ socket)
      → kept sz' socket' (unmap_of unlinked sz socket left ps).0 ≡ kept sz' socket' ps
  unfolding unmap_of
  unmap_of_other sz' socket' left [] ne = refl
  unmap_of_other sz' socket' left (p ∷ ps) ne = elim (Bool-cases (is_of p sz socket)) [
    | inl e ↦ elim (Bool-cases (left == 0)) [
      | inl f ↦ rw (e, f, removed p, apart e) (omega (arith, unmap_of_other sz' socket' left ps ne))
      | inr f ↦ rw (e, f, apart e) (omega (arith, unmap_of_other sz' socket' (left - 1) ps ne))
    ]
    | inr e ↦ rw e (
        ap (λ (n : ℕ). one_if (is_of p sz' socket' && ltb 0 p.final_va) + n)
          (unmap_of_other sz' socket' left ps ne))
  ]
    where
      apart : is_of p sz socket ≡ true → is_of p sz' socket' ≡ false
      apart e = ground (arith, e, ne)
