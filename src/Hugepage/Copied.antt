-- ===== src/Hugepage/Copied.antt =====
-- The copy of the mapped pages to the shared table, `copy_hugepages_to_shared_mem`.
use rte_demo.Prelude.{
  ℕ, ◌+◌, ◌≤◌, ◌<◌, ◌≡◌, refl, ap, ◌∙◌, ◌⊎◌, inl, inr, arith, List, [], ◌∷◌, ◌++◌, length,
  length-append, set, drop, ◌==◌, Bool-cases, false, Option, none, some, if◌then◌else◌,
}
use rte_demo.Hugepage.Types.{HugepageFile}
use rte_demo.Hugepage.Pages.{copy_active, copy_hugepages_to_shared_mem}

-- The pages that are mapped, in their order.
abbrev pub mapped : List HugepageFile → List HugepageFile
mapped [] = []
mapped (page ∷ pages) = if page.final_va == 0 then mapped pages else page ∷ mapped pages

-- The table behind `front` is to take the pages of `src`: they fit and stand there, or they do not.
abbrev pub IsCopied :
    (front back : List HugepageFile) → ℕ → List HugepageFile → Option (List HugepageFile) → Type 0
IsCopied front back n src r =
    ((length front + length (mapped src) ≤ n)
      × (r ≡ some (front ++ (mapped src ++ drop (length (mapped src)) back))))
    ⊎ ((n < length front + length (mapped src)) × (r ≡ none))

set_end :
    (front : List HugepageFile) (b p : HugepageFile) (back : List HugepageFile)
    → set (front ++ (b ∷ back)) (length front) p ≡ (front ++ (p ∷ [])) ++ back
set_end [] b p back = refl
set_end (x ∷ front) b p back = ap (λ (l : List HugepageFile). x ∷ l) (set_end front b p back)

append_end :
    (front : List HugepageFile) (p : HugepageFile) (rest : List HugepageFile)
    → (front ++ (p ∷ [])) ++ rest ≡ front ++ (p ∷ rest)
append_end [] p rest = refl
append_end (x ∷ front) p rest = ap (λ (l : List HugepageFile). x ∷ l) (append_end front p rest)

IsCopied-append :
    (front bs : List HugepageFile) (b p : HugepageFile) (n : ℕ) (src : List HugepageFile)
    → IsCopied
        (front ++ (p ∷ []))
        bs
        n
        src
        (copy_active ((front ++ (p ∷ [])) ++ bs) (length (front ++ (p ∷ []))) n src)
    → (p.final_va == 0) ≡ false
    → IsCopied front
        (b ∷ bs)
        n
        (p ∷ src)
        (copy_active (set (front ++ (b ∷ bs)) (length front) p) (length front + 1) n src)
IsCopied-append front bs b p n src (inl (h, e)) f = rw f (
    inl (
      omega (arith, h, length-append front (p ∷ [])),
      rw (set_end front b p bs) (
          rw (length-append front (p ∷ [])) at e
          ∙ ap some (append_end front p (mapped src ++ drop (length (mapped src)) bs))),
    ))
IsCopied-append front bs b p n src (inr (h, e)) f = rw f (
    inr (
      omega (arith, h, length-append front (p ∷ [])),
      rw (set_end front b p bs) (rw (length-append front (p ∷ [])) at e),
    ))

copy_active_lem :
    (front back : List HugepageFile) (n : ℕ) (src : List HugepageFile)
    → n ≤ length front + length back
    → length front ≤ n
    → IsCopied front back n src (copy_active (front ++ back) (length front) n src)
unfolding copy_active
copy_active_lem front back n [] h k = inl (omega (arith, k), refl)
copy_active_lem front [] n (p ∷ src) h k = elim (Bool-cases (p.final_va == 0)) [
  | inl e ↦ rw e (copy_active_lem front [] n src h k)
  | inr e ↦ elim (Bool-cases (length front == n)) [
    | inl f ↦ rw (e, f) (inr (ground (arith, f), refl))
    | inr f ↦ absurd (ground (arith, f, h, k))
  ]
]
copy_active_lem front (b ∷ bs) n (p ∷ src) h k = elim (Bool-cases (p.final_va == 0)) [
  | inl e ↦ rw e (copy_active_lem front (b ∷ bs) n src h k)
  | inr e ↦ elim (Bool-cases (length front == n)) [
    | inl f ↦ rw (e, f) (inr (ground (arith, f), refl))
    | inr f ↦
        rw (e, f)
          (rw e at (
            IsCopied-append front bs b p n src
              (copy_active_lem (front ++ (p ∷ [])) bs n src
                (omega (arith, h, length-append front (p ∷ [])))
                (ground (arith, k, f, length-append front (p ∷ []))))
              e))
  ]
]

-- The copy into a table of at least `dest_size` entries succeeds exactly when at most `dest_size`
-- pages are mapped; then these stand at the beginning of the table in their order, and the entries
-- behind them are as before.
pub copy_hugepages_to_shared_mem_lem :
    (dst : List HugepageFile) (dest_size : ℕ) (src : List HugepageFile)
    → dest_size ≤ length dst
    → IsCopied [] dst dest_size src (copy_hugepages_to_shared_mem dst dest_size src)
unfolding copy_hugepages_to_shared_mem
copy_hugepages_to_shared_mem_lem dst dest_size src h =
    copy_active_lem [] dst dest_size src (omega (arith, h)) (omega arith)
