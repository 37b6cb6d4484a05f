-- ===== src/Malloc/Cut.antt =====
-- Splitting an element in two, and joining the two again.
use rte_demo.Prelude.{
  ℕ, ◌+◌, ◌-◌, ◌^◌, ◌<◌, ◌≡◌, refl, sym, ap, inl, inr, arith, ◌==◌, true, false, Bool-cases,
}
use rte_demo.Word.{add64, sub64}
use rte_demo.Malloc.Types.{Elem, Memory, elem_free}
use rte_demo.Malloc.Elem.{elem_init, split_elem, join_elem}

same : (a : ℕ) → (a == a) ≡ true
same a = ground arith

apart : (a b : ℕ) → ¬ (a ≡ b) → (a == b) ≡ false
apart a b h = ground arith

-- `split_pt` lies inside the element at `elem`, whose end is an address.
module _ (m : Memory) (elem split_pt : ℕ) (after : elem < split_pt)
    (inside : split_pt < elem + (m.elem_at elem).size)
    (word : elem + (m.elem_at elem).size < 2 ^ 64) where
  -- The address behind the element.
  abbrev pub next_at : ℕ
  next_at = elem + (m.elem_at elem).size

  next_value : add64 elem (m.elem_at elem).size ≡ next_at
  next_value = omega arith

  old_size : sub64 split_pt elem ≡ split_pt - elem
  old_size = omega arith

  new_size : sub64 (m.elem_at elem).size (sub64 split_pt elem) ≡ next_at - split_pt
  new_size = omega arith

  -- The header that is written at the split point.
  abbrev pub new_header : Elem
  new_header = record {
    heap = (m.elem_at elem).heap;
    prev = elem;
    ms = (m.elem_at elem).ms;
    state = elem_free;
    pad = 0;
    size = next_at - split_pt;
  }

  pub at_split : (split_elem m elem split_pt).elem_at split_pt ≡ new_header
  unfolding split_elem elem_init
  at_split = rw (
    next_value,
    new_size,
    apart split_pt elem (λ e. absurd (omega arith)),
    apart split_pt next_at (λ e. absurd (omega arith)),
    same split_pt,
  )

  pub at_elem :
      (split_elem m elem split_pt).elem_at elem ≡ record (m.elem_at elem) { size = split_pt - elem }
  unfolding split_elem elem_init
  at_elem = rw (
    next_value,
    old_size,
    same elem,
    apart elem next_at (λ e. absurd (omega arith)),
    apart elem split_pt (λ e. absurd (omega arith)),
  )

  pub at_next :
      (split_elem m elem split_pt).elem_at next_at ≡ record (m.elem_at next_at) { prev = split_pt }
  unfolding split_elem elem_init
  at_next = rw (
    next_value,
    same next_at,
    apart next_at elem (λ e. absurd (omega arith)),
    apart next_at split_pt (λ e. absurd (omega arith)),
  )

  module _ (a : ℕ) (not_elem : ¬ (a ≡ elem)) (not_split : ¬ (a ≡ split_pt))
      (not_next : ¬ (a ≡ next_at)) where
    pub elsewhere : (split_elem m elem split_pt).elem_at a ≡ m.elem_at a
    unfolding split_elem elem_init
    elsewhere =
        rw (next_value, apart a elem not_elem, apart a split_pt not_split, apart a next_at not_next)

  joined_next : add64 split_pt (next_at - split_pt) ≡ next_at
  joined_next = omega arith

  joined_size : add64 (split_pt - elem) (next_at - split_pt) ≡ (m.elem_at elem).size
  joined_size = omega arith

  elem-next : (elem == next_at) ≡ false
  elem-next = apart elem next_at (λ e. absurd (omega arith))

  next-elem : (next_at == elem) ≡ false
  next-elem = apart next_at elem (λ e. absurd (omega arith))

  joined-elem : (join_elem (split_elem m elem split_pt) elem split_pt).elem_at elem ≡ m.elem_at elem
  unfolding join_elem
  joined-elem = rw (at_split, joined_next, elem-next, same elem, at_elem, joined_size) refl

  joined-next :
      (m.elem_at next_at).prev ≡ elem
      → (join_elem (split_elem m elem split_pt) elem split_pt).elem_at next_at ≡ m.elem_at next_at
  unfolding join_elem
  joined-next linked =
      rw (at_split, joined_next, same next_at, next-elem, at_next)
        (ap (λ (t : ℕ). record (m.elem_at next_at) { prev = t }) (sym linked))

  joined-elsewhere :
      (a : ℕ)
      → ¬ (a ≡ elem)
      → ¬ (a ≡ split_pt)
      → ¬ (a ≡ next_at)
      → (join_elem (split_elem m elem split_pt) elem split_pt).elem_at a ≡ m.elem_at a
  unfolding join_elem
  joined-elsewhere a p q r =
      rw (at_split, joined_next, apart a next_at r, apart a elem p) (elsewhere a p q r)

  restored :
      (a : ℕ)
      → (m.elem_at next_at).prev ≡ elem
      → ¬ (a ≡ split_pt)
      → (join_elem (split_elem m elem split_pt) elem split_pt).elem_at a ≡ m.elem_at a
  restored a linked not_split = elim (Bool-cases (a == elem)) [
    | inl e ↦ let e' : a ≡ elem = ground arith in rw e' joined-elem
    | inr p ↦ elim (Bool-cases (a == next_at)) [
      | inl e ↦ let e' : a ≡ next_at = ground arith in rw e' (joined-next linked)
      | inr q ↦ joined-elsewhere a (ground arith) not_split (ground arith)
    ]
  ]

  -- Where the element behind is linked to this one and the split point lies inside it, with no
  -- wrap-around: the split leaves at the split point the header of a free element without padding,
  -- of the same heap and segment, behind the first part and up to the old end; the first part keeps
  -- its other fields and ends at the split point; the element behind is linked to the new one; no
  -- other header changes. Joining the two parts again restores every header but that at the split
  -- point.
  pub join_elem-split_elem :
      (m.elem_at next_at).prev ≡ elem
      → ((split_elem m elem split_pt).elem_at split_pt ≡ new_header)
        × ((split_elem m elem split_pt).elem_at elem
            ≡ record (m.elem_at elem) { size = split_pt - elem })
        × ((split_elem m elem split_pt).elem_at next_at
            ≡ record (m.elem_at next_at) { prev = split_pt })
        × ((a : ℕ)
            → ¬ (a ≡ elem)
            → ¬ (a ≡ split_pt)
            → ¬ (a ≡ next_at)
            → (split_elem m elem split_pt).elem_at a ≡ m.elem_at a)
        × ((a : ℕ)
            → ¬ (a ≡ split_pt)
            → (join_elem (split_elem m elem split_pt) elem split_pt).elem_at a ≡ m.elem_at a)
  join_elem-split_elem linked =
      (at_split, at_elem, at_next, elsewhere, λ a ne. restored a linked ne)
