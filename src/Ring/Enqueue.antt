-- ===== src/Ring/Enqueue.antt =====
-- `__rte_ring_do_enqueue` on a ring at rest.
use mathlib.Core.Path.{ap₂, subst}
use native.Mathlib.Nat.{add-mod_right, zero-add}
use mathlib.Core.List.{append-nil}
use rte_demo.Prelude.{
  ℕ, ◌+◌, ◌-◌, ◌%◌, ◌≤◌, ◌<◌, ◌≡◌, refl, sym, ap, ◌∙◌, arith, List, ◌++◌, length, some, take,
  get_or, ==_iff, length-append, length-take, ◌==◌, if◌then◌else◌, Bool-cases, inl, inr,
}
use rte_demo.Word.{add32, sub32}
use rte_demo.Ring.Types.{Behavior, HeadTail, Ring}
use rte_demo.Ring.Copy.{enqueue_ptrs}
use rte_demo.Ring.Window.{items, items-append, items_ext, items-take}
use rte_demo.Ring.Table.{size_small, enqueue_ptrs_lem}
use rte_demo.Ring.Queue
use rte_demo.Ring.Queue.{moved, moved_bounds}
use rte_demo.Ring.Invariant.{IsValid, used, contents, length-contents, prod_position}
use rte_demo.Ring.Transfer.{Enqueued, do_enqueue}
use rte_demo.Ring.Heads.{move_prod_head_lem, update_tail_ready, granted-moved}

-- The copy into the table does not read the producer's indices.
enqueue_ptrs_prod :
    (r : Ring) (prod : HeadTail) (head : ℕ) (words : List ℕ) (n : ℕ)
    → enqueue_ptrs (record r { prod = prod }) head words n ≡ enqueue_ptrs r head words n
unfolding enqueue_ptrs
enqueue_ptrs_prod r prod head words n = refl

module _ (r : Ring) (words : List ℕ) (n : ℕ) (b : Behavior) where
  -- How many objects the queue takes.
  count : ℕ
  count = moved b n (r.capacity - used r)

  -- The head and the tail after it.
  next : ℕ
  unfolding count
  next = add32 r.prod.tail count

  after : Ring
  unfolding next
  after = record r {
    prod = record (r.prod) { head = next; tail = next };
    slots = enqueue_ptrs r r.prod.tail words count;
  }

  enqueued : Enqueued
  unfolding after
  enqueued = record {
    count = count;
    free_space = r.capacity - used r - count;
    ring = if count == 0 then r else after;
  }

  module _ (v : IsValid r) (is_sp : ℕ) where
    found : sub32 (add32 r.capacity r.cons.tail) r.prod.head ≡ r.capacity - used r
    found =
        omega (arith, v.prod_quiet, v.stored, v.prod_word, v.cons_word, v.spare, size_small v.shape)

    do_enqueue-enqueued : do_enqueue r words n b is_sp ≡ some enqueued
    unfolding do_enqueue enqueued
    do_enqueue-enqueued =
        rw (move_prod_head_lem 0 r is_sp n b, found, granted-moved b n (r.capacity - used r))
          (elim (Bool-cases (moved b n (r.capacity - used r) == 0)) [
            | inl none_fits ↦ rw none_fits (ground (arith, size_small v.shape, v.spare))
            | inr some_fit ↦
                rw (some_fit, some_fit)
                  (ground (
                    arith,
                    size_small v.shape,
                    v.spare,
                    v.prod_quiet,
                    update_tail_ready (record (r.prod) { head = add32 r.prod.head count })
                        r.prod.head (add32 r.prod.head count) is_sp,
                    enqueue_ptrs_prod r (record (r.prod) { head = add32 r.prod.head count })
                        r.prod.head words count,
                  ))
          ])

    -- No more is taken than there is room for.
    count_bounds : (count ≤ r.capacity - used r) × (count ≤ n)
    unfolding count
    count_bounds = moved_bounds b n (r.capacity - used r)

    count-le-size : count ≤ r.size
    count-le-size = omega (arith, count_bounds.0, v.spare)

    used-after : used after ≡ used r + count
    unfolding after
    used-after =
        omega
          (arith, count_bounds.0, v.prod_word, v.cons_word, v.stored, v.spare, size_small v.shape)

    after-IsValid : IsValid after
    unfolding after
    after-IsValid = record {
      shape = record {
        order = v.shape.order;
        order_lt = v.shape.order_lt;
        size_pow = v.shape.size_pow;
        mask_low = v.shape.mask_low;
        table = (enqueue_ptrs_lem v.shape r.prod.tail words count count-le-size).0;
      };
      spare = v.spare;
      prod_word = omega arith;
      cons_word = v.cons_word;
      prod_quiet = refl;
      cons_quiet = v.cons_quiet;
      stored = omega (arith, used-after, count_bounds.0, v.stored);
    }

    filled : List ℕ
    filled = enqueue_ptrs r r.prod.tail words count

    old_objects : items filled r.size r.cons.tail (used r) ≡ contents r
    unfolding filled
    old_objects = items_ext filled r.slots r.size r.cons.tail (used r) λ i p.
        subst (λ (t : ℕ). get_or filled t 0 ≡ get_or r.slots t 0) (behind i p)
          ((enqueue_ptrs_lem v.shape r.prod.tail words count count-le-size).2 (r.size - used r + i)
            (omega (arith, count_bounds.0, v.spare)) (omega (arith, v.stored, v.spare)))
      where
        behind :
            (i : ℕ)
            → i < used r
            → (r.prod.tail + (r.size - used r + i)) % r.size ≡ (r.cons.tail + i) % r.size
        behind i p =
            prod_position v (r.size - used r + i)
            ∙ ap (λ (t : ℕ). t % r.size) (omega (arith, v.stored, v.spare))
            ∙ add-mod_right (r.cons.tail + i) r.size

    new_objects :
        count ≤ length words → items filled r.size (r.cons.tail + used r) count ≡ take count words
    unfolding filled
    new_objects room =
        items-take filled words r.size (r.cons.tail + used r) 0 count
          (λ i p.
            rw (← prod_position v i, zero-add i)
              ((enqueue_ptrs_lem v.shape r.prod.tail words count count-le-size).1 i p))
          (omega arith)

    contents-after : count ≤ length words → contents after ≡ contents r ++ take count words
    unfolding after filled
    contents-after room =
        ap (λ (t : ℕ). items filled r.size r.cons.tail t) used-after
        ∙ items-append filled r.size r.cons.tail (used r) count
        ∙ ap₂ ◌++◌ old_objects (new_objects room)

    enqueued-IsValid : IsValid enqueued.ring
    unfolding enqueued
    enqueued-IsValid = elim (Bool-cases (count == 0)) [
      | inl none_fits ↦ rw none_fits v
      | inr some_fit ↦ rw some_fit after-IsValid
    ]

    contents-enqueued :
        count ≤ length words → contents enqueued.ring ≡ contents r ++ take count words
    unfolding enqueued
    contents-enqueued room = elim (Bool-cases (count == 0)) [
      | inl none_fits ↦ rw (none_fits, (==_iff count 0).0 none_fits) (sym (append-nil (contents r)))
      | inr some_fit ↦ rw some_fit (contents-after room)
    ]

    capacity-enqueued : enqueued.ring.capacity ≡ r.capacity
    unfolding enqueued after
    capacity-enqueued = ground arith

-- What an enqueue promises: it ends, keeps the invariant and the capacity, takes as many objects
-- as the bounded queue takes, leaves the ring holding that queue, and reports the free room.
pub record Enqueues (r : Ring) (words : List ℕ) (n : ℕ) (b : Behavior) (e : Enqueued) : Type 0 where
  pub valid : IsValid e.ring
  pub queue : (e.count, contents e.ring) ≡ Queue.enqueue r.capacity b n words (contents r)
  pub room : e.free_space ≡ r.capacity - length (contents e.ring)
  pub capacity : e.ring.capacity ≡ r.capacity

enqueued-Enqueues :
    {r : Ring} (words : List ℕ) (n : ℕ) (b : Behavior) (is_sp : ℕ)
    → IsValid r
    → n ≤ length words
    → Enqueues r words n b (enqueued r words n b)
unfolding enqueued Queue.enqueue
enqueued-Enqueues {r} words n b is_sp v room = record {
  valid = enqueued-IsValid r words n b v is_sp;
  queue =
      rw (length-contents r) (ap {B = ℕ × List ℕ} (λ (t : List ℕ). (count r words n b, t)) held);
  room = omega (
    arith,
    ap length held,
    length-append (contents r) (take (count r words n b) words),
    length-take (count r words n b) words,
    length-contents r,
    length-contents (enqueued r words n b).ring,
    few,
  );
  capacity = capacity-enqueued r words n b v is_sp;
}
  where
    few : count r words n b ≤ length words
    few = omega (arith, (count_bounds r words n b v is_sp).1)

    held : contents (enqueued r words n b).ring ≡ contents r ++ take (count r words n b) words
    held = contents-enqueued r words n b v is_sp few

-- On a valid ring, with `n` objects in the caller's table, `__rte_ring_do_enqueue` ends and does
-- what `Queue.enqueue` does: the count, the objects held afterwards in order, the free room that it
-- reports; the result is valid and has the same capacity. This holds for both behaviours, and for
-- single and multiple producers.
pub do_enqueue_refines :
    {r : Ring} (words : List ℕ) (n : ℕ) (b : Behavior) (is_sp : ℕ)
    → IsValid r
    → n ≤ length words
    → (e : Enqueued) × (do_enqueue r words n b is_sp ≡ some e) × Enqueues r words n b e
do_enqueue_refines {r} words n b is_sp v room = (
  enqueued r words n b,
  do_enqueue-enqueued r words n b v is_sp,
  enqueued-Enqueues words n b is_sp v room,
)
