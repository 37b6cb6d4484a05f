-- ===== src/Malloc/Resize.antt =====
-- What `malloc_elem_resize` returns and leaves.
use rte_demo.Prelude.{
  ℕ, ◌+◌, ◌-◌, ◌^◌, ◌≤◌, ◌<◌, ◌≡◌, refl, ap, ◌⊎◌, inl, inr, arith, true, false, Bool, ltb, leb,
  Bool-cases, length,
}
use rte_demo.Word.{add64, sub64, align_ceil}
use rte_demo.Word.Align.{align_ceil_lem}
use rte_demo.Malloc.Types.{Memory, Elem, is_free, elem_overhead, min_data_size}
use rte_demo.Malloc.Elem.{elem_resize}
use rte_demo.Malloc.Grown.{
  next, end, heap, whole, whole_elem, IsWhole, IsCut, whole-IsWhole, cut_off-IsCut,
}

-- The ways in which a call ends that asks for an element of `wanted` bytes.
abbrev pub Outcome : Memory → (elem wanted : ℕ) → Bool × Memory → Type 0
Outcome m elem wanted r =
    ((wanted ≤ (m.elem_at elem).size) × (r ≡ (true, m)))
    ⊎ (((m.elem_at elem).size < wanted)
        × ((is_free (m.elem_at (next m elem)).state ≡ false) ⊎ (end m elem - elem < wanted))
        × (r ≡ (false, m)))
    ⊎ (((m.elem_at elem).size < wanted)
        × (is_free (m.elem_at (next m elem)).state ≡ true)
        × (r.0 ≡ true)
        × (IsWhole m elem wanted r.1 ⊎ ((cut : ℕ) × IsCut m elem wanted cut r.1)))

module _ (m : Memory) (elem size : ℕ) (some : 0 < (m.elem_at elem).size)
    (word : end m elem < 2 ^ 64)
    (asked : elem + size + (m.elem_at elem).pad + elem_overhead + 64 < 2 ^ 64)
    (same_heap : (m.elem_at (next m elem)).heap ≡ heap m elem)
    (lists : length (m.heap_at (heap m elem)).free_head ≡ 13) where
  abbrev wanted : ℕ
  wanted = size + (m.elem_at elem).pad + elem_overhead

  next_value : add64 elem (m.elem_at elem).size ≡ next m elem
  next_value = omega arith

  wanted_value : add64 (add64 size (m.elem_at elem).pad) elem_overhead ≡ wanted
  wanted_value = omega arith

  abbrev joined : Memory
  joined = whole m elem some word same_heap

  joined_size : (joined.elem_at elem).size ≡ end m elem - elem
  joined_size = ap (λ (e : Elem). e.size) (whole_elem m elem some word same_heap)

  abbrev split_pt : ℕ
  split_pt = align_ceil 64 32 (add64 elem wanted) 64

  split_bounds : (elem + wanted ≤ split_pt) × (split_pt < elem + wanted + 64)
  split_bounds =
      let (_, lo, hi) =
        align_ceil_lem 64 32 6 (elem + wanted) (omega arith) (omega arith) (omega arith) in
      let e : add64 elem wanted ≡ elem + wanted = omega arith in rw e (lo, hi)

  sum_value : add64 (m.elem_at elem).size (m.elem_at (next m elem)).size ≡ end m elem - elem
  sum_value = omega arith

  -- Where the sums do not wrap, the element behind is of the same heap, and the heap has its free
  -- lists: a call for which the element is large enough returns 0 and changes nothing. Else it fails
  -- and changes nothing exactly where the element behind is not free or both are too small. Else it
  -- returns 0 and the element has taken in the one behind: the whole of it, where less than 128 bytes
  -- are left over, or up to a split point that is less than 64 bytes behind what is wanted; what is
  -- left is then a free element in its free list, linked on both sides. The element behind is in no
  -- free list of the heap any more; no other header changes and no other element enters or leaves
  -- the lists of the heap.
  pub elem_resize_lem : Outcome m elem wanted (elem_resize m elem size)
  unfolding elem_resize
  elem_resize_lem =
      rw (wanted_value, next_value)
        (elim (Bool-cases (leb wanted (m.elem_at elem).size)) [
          | inl e ↦ rw e (inl (ground arith, refl))
          | inr e ↦ rw e (elim (Bool-cases (is_free (m.elem_at (next m elem)).state)) [
            | inr f ↦ rw f (inr (inl (ground arith, inl refl, refl)))
            | inl f ↦ rw f (elim (Bool-cases (ltb (end m elem - elem) wanted)) [
              | inl g ↦ rw (sum_value, g) (inr (inl (ground arith, inr (ground arith), refl)))
              | inr g ↦
                  rw (sum_value, g)
                    (elim (Bool-cases (
                      leb (min_data_size + elem_overhead)
                        (sub64 (joined.elem_at elem).size wanted))) [
                          | inl c ↦ rw c (
                              inr (
                                inr (
                                  ground arith,
                                  refl,
                                  refl,
                                  inr (
                                    split_pt,
                                    cut_off-IsCut m elem some word same_heap wanted split_pt
                                        (ground arith) split_bounds.0 split_bounds.1
                                        (ground (arith, c, g, joined_size)) lists,
                                  ),
                                )))
                          | inr c ↦ rw c (
                              inr (
                                inr (
                                  ground arith,
                                  refl,
                                  refl,
                                  inl (
                                      whole-IsWhole m elem some word same_heap wanted (ground arith)
                                        (ground (arith, c, g, joined_size))),
                                )))
                        ])
            ])
          ])
        ])
