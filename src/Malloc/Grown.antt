-- ===== src/Malloc/Grown.antt =====
-- An element that has taken in the free one behind it, whole or without what is left over.
use rte_demo.Prelude.{
  ℕ, ◌+◌, ◌-◌, ◌^◌, ◌≤◌, ◌<◌, ◌≡◌, ◌≢◌, refl, ap, ◌∙◌, ◌↔◌, arith, true, false, ◌==◌, ==_iff,
  length,
}
use rte_demo.Word.{add64, sub64}
use rte_demo.Malloc.Types.{Memory, Elem, elem_free, header_len}
use rte_demo.Malloc.FreeList.{free_list_index, free_list_insert, free_list_remove}
use rte_demo.Malloc.Elem.{elem_init, split_elem, join_elem}
use rte_demo.Malloc.Index.{free_list_index_lem}
use rte_demo.Malloc.Cut.{at_split, at_elem, at_next, elsewhere}
use rte_demo.Malloc.Listed.{
  Occurs, list_of, removed-Occurs, removed_count, inserted-Occurs, inserted_self,
}

module _ (m : Memory) (elem : ℕ) where
  abbrev pub next : ℕ
  next = elem + (m.elem_at elem).size

  -- Where the element behind ends.
  abbrev pub end : ℕ
  end = next + (m.elem_at next).size

  abbrev pub heap : ℕ
  heap = (m.elem_at elem).heap

  -- The whole of the element behind is taken: the two are one, to which the element behind them is
  -- linked. The free lists lose the element and nothing else.
  pub record IsWhole (wanted : ℕ) (m' : Memory) : Type 0 where
    pub room : wanted ≤ end - elem
    pub little : end - elem < wanted + 128
    pub header : m'.elem_at elem ≡ record (m.elem_at elem) { size = end - elem }
    pub linked : m'.elem_at end ≡ record (m.elem_at end) { prev = elem }
    pub same : (a : ℕ) → a ≢ elem → a ≢ end → m'.elem_at a ≡ m.elem_at a
    pub lists :
        (a i : ℕ) → Occurs a (list_of m' heap i) ↔ (Occurs a (list_of m heap i) × (a ≢ next))

  -- What is left over from `cut` on is a free element, linked on both sides, in the free list of its
  -- size. The free lists lose the element behind and get this one.
  pub record IsCut (wanted cut : ℕ) (m' : Memory) : Type 0 where
    pub room : elem + wanted ≤ cut
    pub tight : cut < elem + wanted + 64
    pub header : m'.elem_at elem ≡ record (m.elem_at elem) { size = cut - elem }
    pub rest : m'.elem_at cut ≡ record {
      heap = heap;
      prev = elem;
      ms = (m.elem_at elem).ms;
      state = elem_free;
      pad = 0;
      size = end - cut;
    }
    pub linked : m'.elem_at end ≡ record (m.elem_at end) { prev = cut }
    pub same : (a : ℕ) → a ≢ elem → a ≢ cut → a ≢ end → m'.elem_at a ≡ m.elem_at a
    pub listed : Occurs cut (list_of m' heap (free_list_index (end - cut - header_len)))
    pub lists :
        (a i : ℕ)
        → a ≢ cut
        → Occurs a (list_of m' heap i) ↔ (Occurs a (list_of m heap i) × (a ≢ next))

  module _ (some : 0 < (m.elem_at elem).size) (word : end < 2 ^ 64)
      (same_heap : (m.elem_at next).heap ≡ heap) where
    abbrev pub whole : Memory
    whole = join_elem (free_list_remove m next) elem next

    end_value : add64 next (m.elem_at next).size ≡ end
    end_value = omega (arith, word)

    sum_value : add64 (m.elem_at elem).size (m.elem_at next).size ≡ end - elem
    sum_value = omega (arith, word)

    apart : (a b : ℕ) → a ≢ b → (a == b) ≡ false
    apart a b ne = ground (arith, ne)

    self : (a : ℕ) → (a == a) ≡ true
    self a = (==_iff a a).1 refl

    pub whole_elem : whole.elem_at elem ≡ record (m.elem_at elem) { size = end - elem }
    unfolding join_elem free_list_remove
    whole_elem =
        rw (end_value, apart elem end (λ e. absurd (omega (arith, e, some))), self elem, sum_value)
          refl

    pub whole_end : whole.elem_at end ≡ record (m.elem_at end) { prev = elem }
    unfolding join_elem free_list_remove
    whole_end = rw (end_value, self end, apart end elem (λ e. absurd (omega (arith, e, some)))) refl

    pub whole_same : (a : ℕ) → a ≢ elem → a ≢ end → whole.elem_at a ≡ m.elem_at a
    unfolding join_elem free_list_remove
    whole_same a p q = rw (end_value, apart a end q, apart a elem p) refl

    pub whole_lists :
        (a i : ℕ) → Occurs a (list_of whole heap i) ↔ (Occurs a (list_of m heap i) × (a ≢ next))
    unfolding join_elem
    whole_lists a i = rw same_heap at (removed-Occurs m next a i)

    whole_count : length (whole.heap_at heap).free_head ≡ length (m.heap_at heap).free_head
    unfolding join_elem
    whole_count = rw same_heap at (removed_count m next)

    pub whole-IsWhole :
        (wanted : ℕ) → wanted ≤ end - elem → end - elem < wanted + 128 → IsWhole wanted whole
    whole-IsWhole wanted h k = record {
      room = h;
      little = k;
      header = whole_elem;
      linked = whole_end;
      same = whole_same;
      lists = whole_lists;
    }

    module _ (wanted cut : ℕ) (after : (m.elem_at elem).size < wanted) (from : elem + wanted ≤ cut)
        (near : cut < elem + wanted + 64) (left : wanted + 128 ≤ end - elem)
        (lists : length (m.heap_at heap).free_head ≡ 13) where
      abbrev parts : Memory
      parts = split_elem whole elem cut

      whole_size : (whole.elem_at elem).size ≡ end - elem
      whole_size = ap (λ (e : Elem). e.size) whole_elem

      inside : cut < elem + (whole.elem_at elem).size
      inside = omega (arith, whole_size, near, left)

      short : elem + (whole.elem_at elem).size < 2 ^ 64
      short = omega (arith, whole_size, word)

      behind : elem < cut
      behind = omega (arith, after, from)

      whole_next : elem + (whole.elem_at elem).size ≡ end
      whole_next = omega (arith, whole_size)

      abbrev left_over : Elem
      left_over = record {
        heap = heap;
        prev = elem;
        ms = (m.elem_at elem).ms;
        state = elem_free;
        pad = 0;
        size = end - cut;
      }

      parts_cut : parts.elem_at cut ≡ left_over
      parts_cut = at_split whole elem cut behind inside short ∙ rw (whole_next, whole_elem) refl

      parts_elem : parts.elem_at elem ≡ record (m.elem_at elem) { size = cut - elem }
      parts_elem = at_elem whole elem cut behind inside short ∙ rw whole_elem refl

      parts_end : parts.elem_at end ≡ record (m.elem_at end) { prev = cut }
      parts_end = rw whole_next at (at_next whole elem cut behind inside short) ∙ rw whole_end refl

      parts_same : (a : ℕ) → a ≢ elem → a ≢ cut → a ≢ end → parts.elem_at a ≡ m.elem_at a
      parts_same a p q r =
          elsewhere whole elem cut behind inside short a p q (λ e. r (e ∙ whole_next))
          ∙ whole_same a p r

      parts_heaps : parts.heap_at ≡ whole.heap_at
      unfolding split_elem elem_init
      parts_heaps = refl

      abbrev pub cut_off : Memory
      cut_off = free_list_insert parts cut

      kept : (a : ℕ) → a ≢ cut → cut_off.elem_at a ≡ parts.elem_at a
      unfolding free_list_insert
      kept a ne = rw (apart a cut ne) refl

      inserted : cut_off.elem_at cut ≡ record (parts.elem_at cut) { state = elem_free }
      unfolding free_list_insert
      inserted = rw (self cut) refl

      cut_heap : (parts.elem_at cut).heap ≡ heap
      cut_heap = ap (λ (e : Elem). e.heap) parts_cut

      cut_index :
          free_list_index (sub64 (parts.elem_at cut).size header_len)
          ≡ free_list_index (end - cut - header_len)
      cut_index =
          ap free_list_index
            (ap (λ (e : Elem). sub64 e.size header_len) parts_cut ∙ omega (arith, word, near, left))

      cut_room :
          free_list_index (sub64 (parts.elem_at cut).size header_len)
          < length (parts.heap_at (parts.elem_at cut).heap).free_head
      cut_room =
          rw (cut_index, cut_heap, parts_heaps, whole_count, lists)
            (omega (arith, (free_list_index_lem (end - cut - header_len) (omega (arith, word))).0))

      cut_listed : Occurs cut (list_of cut_off heap (free_list_index (end - cut - header_len)))
      cut_listed = rw (cut_heap, cut_index) at (inserted_self parts cut cut_room)

      cut_lists :
          (a i : ℕ)
          → a ≢ cut
          → Occurs a (list_of cut_off heap i) ↔ (Occurs a (list_of m heap i) × (a ≢ next))
      cut_lists a i ne =
          let here = rw cut_heap at (inserted-Occurs parts cut a i ne) in
          let there = whole_lists a i in
          (
            λ h. there.0 (rw parts_heaps at (here.0 h)),
            λ h. here.1 (rw (← parts_heaps) at (there.1 h)),
          )

      pub cut_off-IsCut : IsCut wanted cut cut_off
      cut_off-IsCut = record {
        room = from;
        tight = near;
        header = kept elem (λ e. absurd (omega (arith, e, behind))) ∙ parts_elem;
        rest = inserted ∙ ap (λ (e : Elem). record e { state = elem_free }) parts_cut;
        linked = kept end (λ e. absurd (omega (arith, e, near, left))) ∙ parts_end;
        same = λ a p q r. kept a q ∙ parts_same a p q r;
        listed = cut_listed;
        lists = cut_lists;
      }
