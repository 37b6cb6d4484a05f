-- ===== src/Malloc/Search.antt =====
-- What the search of the free lists finds.
use rte_demo.Prelude.{
  ℕ, ◌≡◌, refl, ◌⊎◌, inl, inr, List, [], ◌∷◌, drop, Option, none, some, bit_and, ◌==◌, Bool, true,
  false, Bool-cases, ◌&&◌,
}
use rte_demo.Malloc.Types.{Memory}
use rte_demo.Malloc.Fit.{can_hold}
use rte_demo.Malloc.FreeList.{free_list_index}
use rte_demo.Malloc.Heap.{
  size_hint_only, check_hugepage_sz, Found, or_else, scan, scan_lists, settle, pass_on,
  find_suitable_element,
}

-- An element of a list, and of one of the lists.
abbrev Among : ℕ → List ℕ → Type 0
Among e [] = ⊥
Among e (x ∷ xs) = (e ≡ x) ⊎ Among e xs

abbrev pub AmongAll : ℕ → List (List ℕ) → Type 0
AmongAll e [] = ⊥
AmongAll e (l ∷ ls) = Among e l ⊎ AmongAll e ls

-- No element of a list, and of any of the lists, passes the test.
abbrev NoneOf : (ℕ → Bool) → List ℕ → Type 0
NoneOf test [] = Unit
NoneOf test (e ∷ es) = (test e ≡ false) × NoneOf test es

abbrev pub NoneOfAll : (ℕ → Bool) → List (List ℕ) → Type 0
NoneOfAll test [] = Unit
NoneOfAll test (l ∷ ls) = NoneOf test l × NoneOfAll test ls

module _ (holds paged : ℕ → Bool) where
  module _ (Stands : ℕ → Type 0) where
    -- An element that may be remembered.
    abbrev Held : Option ℕ → Type 0
    Held none = Unit
    Held (some e) = Stands e × (holds e ≡ true)

    -- An element that may be returned at once.
    abbrev Fine : Option ℕ → Type 0
    Fine none = Unit
    Fine (some e) = Stands e × (holds e ≡ true) × (paged e ≡ true)

    Held-or_else :
        (alt : Option ℕ) (e : ℕ) → Held alt → Stands e × (holds e ≡ true) → Held (or_else alt e)
    Held-or_else none e h k = k
    Held-or_else (some a) e h k = h

    scan-Held :
        (alt : Option ℕ) (es : List ℕ)
        → ((e : ℕ) → Among e es → Stands e)
        → Held alt
        → Fine (scan holds paged alt es).hit × Held (scan holds paged alt es).alt
    unfolding scan
    scan-Held alt [] f h = (tt, h)
    scan-Held alt (e ∷ es) f h = elim (Bool-cases (holds e)) [
      | inr p ↦ rw p (scan-Held alt es (λ x k. f x (inr k)) h)
      | inl p ↦ elim (Bool-cases (paged e)) [
        | inl q ↦ rw (p, q) ((f e (inl refl), p, q), h)
        | inr q ↦
            rw (p, q)
              (scan-Held (or_else alt e) es (λ x k. f x (inr k))
                (Held-or_else alt e h (f e (inl refl), p)))
      ]
    ]

    pass_on-Held :
        (hit alt : Option ℕ) (more : Found)
        → Fine hit × Held alt
        → Fine more.hit × Held more.alt
        → Fine (pass_on hit alt more).hit × Held (pass_on hit alt more).alt
    pass_on-Held none alt more a b = b
    pass_on-Held (some e) alt more a b = a

    scan_lists-Held :
        (alt : Option ℕ) (ls : List (List ℕ))
        → ((e : ℕ) → AmongAll e ls → Stands e)
        → Held alt
        → Fine (scan_lists holds paged alt ls).hit × Held (scan_lists holds paged alt ls).alt
    unfolding scan_lists
    scan_lists-Held alt [] f h = (tt, h)
    scan_lists-Held alt (l ∷ ls) f h =
        let one = scan-Held alt l (λ e k. f e (inl k)) h in
        pass_on-Held (scan holds paged alt l).hit (scan holds paged alt l).alt _ one
          (scan_lists-Held (scan holds paged alt l).alt ls (λ e k. f e (inr k)) one.1)

  abbrev fits : ℕ → Bool
  fits e = holds e && paged e

  abbrev Exhausted : Option ℕ → Type 0 → Type 0
  Exhausted none P = P
  Exhausted (some e) P = Unit

  scan-NoneOf :
      (alt : Option ℕ) (es : List ℕ) → Exhausted (scan holds paged alt es).hit (NoneOf fits es)
  unfolding scan
  scan-NoneOf alt [] = tt
  scan-NoneOf alt (e ∷ es) = elim (Bool-cases (holds e)) [
    | inr p ↦ rw p (also (scan holds paged alt es).hit refl (scan-NoneOf alt es))
    | inl p ↦ elim (Bool-cases (paged e)) [
      | inl q ↦ rw (p, q) tt
      | inr q ↦
          rw (p, q)
            (also (scan holds paged (or_else alt e) es).hit refl (scan-NoneOf (or_else alt e) es))
    ]
  ]
    where
      also :
          (hit : Option ℕ) {b : Bool}
          → b ≡ false
          → Exhausted hit (NoneOf fits es)
          → Exhausted hit ((b ≡ false) × NoneOf fits es)
      also none e u = (e, u)
      also (some a) e u = tt

  scan_lists-NoneOf :
      (alt : Option ℕ) (ls : List (List ℕ))
      → Exhausted (scan_lists holds paged alt ls).hit (NoneOfAll fits ls)
  unfolding scan_lists
  scan_lists-NoneOf alt [] = tt
  scan_lists-NoneOf alt (l ∷ ls) =
      go (scan holds paged alt l).hit (scan holds paged alt l).alt
        (scan_lists holds paged (scan holds paged alt l).alt ls) (scan-NoneOf alt l)
        (scan_lists-NoneOf (scan holds paged alt l).alt ls)
    where
      both :
          (hit : Option ℕ)
          → NoneOf fits l
          → Exhausted hit (NoneOfAll fits ls)
          → Exhausted hit (NoneOf fits l × NoneOfAll fits ls)
      both none u v = (u, v)
      both (some e) u v = tt

      go :
          (hit alt : Option ℕ) (more : Found)
          → Exhausted hit (NoneOf fits l)
          → Exhausted more.hit (NoneOfAll fits ls)
          → Exhausted (pass_on hit alt more).hit (NoneOf fits l × NoneOfAll fits ls)
      go none alt more u v = both more.hit u v
      go (some e) alt more u v = tt

  -- Where nothing is hit and nothing remembered, no element holds the data.
  scan_missed :
      (alt : Option ℕ) (es : List ℕ)
      → (scan holds paged alt es).hit ≡ none
      → (scan holds paged alt es).alt ≡ none
      → (alt ≡ none) × NoneOf holds es
  unfolding scan
  scan_missed alt [] h k = (k, tt)
  scan_missed alt (e ∷ es) h k = elim (Bool-cases (holds e)) [
    | inr p ↦ let (was, rest) = scan_missed alt es (rw p at h) (rw p at k) in (was, (p, rest))
    | inl p ↦ elim (Bool-cases (paged e)) [
      | inl q ↦ absurd (cc (rw (p, q) at h))
      | inr q ↦
          absurd (taken alt (scan_missed (or_else alt e) es (rw (p, q) at h) (rw (p, q) at k)).0)
    ]
  ]
    where
      taken : (a : Option ℕ) → or_else a e ≡ none → ⊥
      taken none q = cc q
      taken (some b) q = cc q

  scan_lists_missed :
      (alt : Option ℕ) (ls : List (List ℕ))
      → (scan_lists holds paged alt ls).hit ≡ none
      → (scan_lists holds paged alt ls).alt ≡ none
      → (alt ≡ none) × NoneOfAll holds ls
  unfolding scan_lists
  scan_lists_missed alt [] h k = (k, tt)
  scan_lists_missed alt (l ∷ ls) h k =
      go (scan holds paged alt l).hit refl (scan_lists_missed (scan holds paged alt l).alt ls) h k
    where
      more : Found
      more = scan_lists holds paged (scan holds paged alt l).alt ls

      go :
          (hit : Option ℕ)
          → (scan holds paged alt l).hit ≡ hit
          → (more.hit ≡ none
              → more.alt ≡ none
              → ((scan holds paged alt l).alt ≡ none) × NoneOfAll holds ls)
          → (pass_on hit (scan holds paged alt l).alt more).hit ≡ none
          → (pass_on hit (scan holds paged alt l).alt more).alt ≡ none
          → (alt ≡ none) × NoneOfAll holds (l ∷ ls)
      go none same later p q =
          let (no_alt, rest) = later p q in
          let (was, first) = scan_missed alt l same no_alt in (was, (first, rest))
      go (some e) same later p q = absurd (cc p)

  -- What is chosen from the lists.
  abbrev pub Outcome : ℕ → List (List ℕ) → Option ℕ → Type 0
  Outcome flags ls choice =
      ((e : ℕ) × (choice ≡ some e) × AmongAll e ls × (holds e ≡ true) × (paged e ≡ true))
      ⊎ ((e : ℕ) × (choice ≡ some e)
          × AmongAll e ls
          × (holds e ≡ true)
          × ((bit_and flags size_hint_only == 0) ≡ false)
          × NoneOfAll fits ls)
      ⊎ ((choice ≡ none)
          × NoneOfAll fits ls
          × (((bit_and flags size_hint_only == 0) ≡ true) ⊎ NoneOfAll holds ls))

  settle-Outcome :
      (flags : ℕ) (ls : List (List ℕ)) (hit alt : Option ℕ)
      → Fine (λ e. AmongAll e ls) hit × Held (λ e. AmongAll e ls) alt
      → Exhausted hit (NoneOfAll fits ls)
      → (hit ≡ none → alt ≡ none → NoneOfAll holds ls)
      → Outcome flags ls (settle flags hit alt)
  settle-Outcome flags ls (some e) alt ((s, p, q), b) u v = inl (e, refl, s, p, q)
  settle-Outcome flags ls none none (a, b) u v =
      elim (Bool-cases (bit_and flags size_hint_only == 0)) [
        | inl e ↦ rw e (inr (inr (refl, u, inl refl)))
        | inr e ↦ rw e (inr (inr (refl, u, inr (v refl refl))))
      ]
  settle-Outcome flags ls none (some c) (a, (s, b)) u v =
      elim (Bool-cases (bit_and flags size_hint_only == 0)) [
        | inl e ↦ rw e (inr (inr (refl, u, inl refl)))
        | inr e ↦ rw e (inr (inl (c, refl, s, b, refl, u)))
      ]

-- The search of the free lists from the index of the size on ends in one of three ways. It returns
-- an element of these lists that can hold the data, on pages of the size asked for. Or no element
-- of them can do so on such pages, the flags only hint at the size, and it returns one that can hold
-- the data. Or it returns NULL; then none can hold the data on such pages, and, if the flags only
-- hint at the size, none can hold it at all.
pub find_suitable_element_lem :
    (hugepage_sz : ℕ → ℕ) (m : Memory) (heap size flags align bound : ℕ)
    → Outcome
        (λ e. can_hold e (m.elem_at e).size size align bound)
        (λ e. check_hugepage_sz flags (hugepage_sz (m.elem_at e).ms))
        flags
        (drop (free_list_index size) (m.heap_at heap).free_head)
        (find_suitable_element hugepage_sz m heap size flags align bound)
unfolding find_suitable_element
find_suitable_element_lem hugepage_sz m heap size flags align bound =
    let holds : ℕ → Bool = λ e. can_hold e (m.elem_at e).size size align bound in
    let paged : ℕ → Bool = λ e. check_hugepage_sz flags (hugepage_sz (m.elem_at e).ms) in
    let lists = drop (free_list_index size) (m.heap_at heap).free_head in
    settle-Outcome holds paged flags lists _ _
      (scan_lists-Held holds paged (λ e. AmongAll e lists) none lists (λ e k. k) tt)
      (scan_lists-NoneOf holds paged none lists)
      (λ h k. (scan_lists_missed holds paged none lists h k).1)
