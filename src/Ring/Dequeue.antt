-- ===== src/Ring/Dequeue.antt =====
-- `__rte_ring_do_dequeue` on a ring at rest.
use mathlib.Core.Path.{ap₂}
use native.Mathlib.Nat.{zero-add}
use rte_demo.Prelude.{
  ℕ, ◌+◌, ◌-◌, ◌%◌, ◌≤◌, ◌<◌, ◌≡◌, refl, sym, ap, ◌∙◌, arith, List, length, some, take, drop,
  length-drop, get_or, ==_iff, ◌==◌, if◌then◌else◌, Bool-cases, inl, inr,
}
use rte_demo.Word.{add32, sub32}
use rte_demo.Ring.Types.{Behavior, HeadTail, Ring}
use rte_demo.Ring.Copy.{dequeue_ptrs}
use rte_demo.Ring.Window.{items, items-take, items-mod, take-items, drop-items}
use rte_demo.Ring.Table.{size_small, dequeue_ptrs_lem}
use rte_demo.Ring.Queue
use rte_demo.Ring.Queue.{moved, moved_bounds}
use rte_demo.Ring.Invariant.{IsValid, used, contents, length-contents, mod32-mod-size}
use rte_demo.Ring.Transfer.{Dequeued, do_dequeue}
use rte_demo.Ring.Heads.{move_cons_head_lem, update_tail_ready, granted-moved}

-- The copy out of the table does not read the consumer's indices.
dequeue_ptrs_cons :
    (r : Ring) (cons : HeadTail) (head : ℕ) (buffer : List ℕ) (n : ℕ)
    → dequeue_ptrs (record r { cons = cons }) head buffer n ≡ dequeue_ptrs r head buffer n
unfolding dequeue_ptrs
dequeue_ptrs_cons r cons head buffer n = refl

module _ (r : Ring) (buffer : List ℕ) (n : ℕ) (b : Behavior) where
  -- How many objects the queue gives.
  count : ℕ
  count = moved b n (used r)

  next : ℕ
  unfolding count
  next = add32 r.cons.tail count

  after : Ring
  unfolding next
  after = record r { cons = record (r.cons) { head = next; tail = next } }

  dequeued : Dequeued
  unfolding after
  dequeued = record {
    count = count;
    available = used r - count;
    objects = if count == 0 then buffer else dequeue_ptrs r r.cons.tail buffer count;
    ring = if count == 0 then r else after;
  }

  module _ (v : IsValid r) (is_sc : ℕ) where
    found : sub32 r.prod.tail r.cons.head ≡ used r
    found = ap (sub32 r.prod.tail) v.cons_quiet

    do_dequeue-dequeued : do_dequeue r buffer n b is_sc ≡ some dequeued
    unfolding do_dequeue dequeued
    do_dequeue-dequeued =
        rw (move_cons_head_lem 0 r is_sc n b, found, granted-moved b n (used r))
          (elim (Bool-cases (moved b n (used r) == 0)) [
            | inl none_held ↦ rw none_held (ground (arith, size_small v.shape, v.spare, v.stored))
            | inr some_held ↦
                rw (some_held, some_held)
                  (ground (
                    arith,
                    size_small v.shape,
                    v.spare,
                    v.stored,
                    v.cons_quiet,
                    moved_bounds b n (used r),
                    update_tail_ready (record (r.cons) { head = add32 r.cons.head count })
                        r.cons.head (add32 r.cons.head count) is_sc,
                    dequeue_ptrs_cons r (record (r.cons) { head = add32 r.cons.head count })
                        r.cons.head buffer count,
                  ))
          ])

    count_bounds : (count ≤ used r) × (count ≤ n)
    unfolding count
    count_bounds = moved_bounds b n (used r)

    used-after : used after ≡ used r - count
    unfolding after
    used-after =
        omega
          (arith, count_bounds.0, v.prod_word, v.cons_word, v.stored, v.spare, size_small v.shape)

    after-IsValid : IsValid after
    unfolding after
    after-IsValid = record {
      shape = record {
        order = v.shape.order;
        order_lt = v.shape.order_lt;
        size_pow = v.shape.size_pow;
        mask_low = v.shape.mask_low;
        table = v.shape.table;
      };
      spare = v.spare;
      prod_word = v.prod_word;
      cons_word = omega arith;
      prod_quiet = v.prod_quiet;
      cons_quiet = refl;
      stored = omega (arith, used-after, v.stored);
    }

    contents-after : contents after ≡ drop count (contents r)
    unfolding after
    contents-after =
        ap (λ (t : ℕ). items r.slots r.size next t) used-after
        ∙ items-mod r.slots r.size next (r.cons.tail + count) (used r - count)
            (mod32-mod-size v.shape (r.cons.tail + count))
        ∙ sym (drop-items r.slots r.size r.cons.tail count (used r) count_bounds.0)

    dequeued-IsValid : IsValid dequeued.ring
    unfolding dequeued
    dequeued-IsValid = elim (Bool-cases (count == 0)) [
      | inl none_held ↦ rw none_held v
      | inr some_held ↦ rw some_held after-IsValid
    ]

    contents-dequeued : contents dequeued.ring ≡ drop count (contents r)
    unfolding dequeued
    contents-dequeued = elim (Bool-cases (count == 0)) [
      | inl none_held ↦ rw (none_held, (==_iff count 0).0 none_held)
      | inr some_held ↦ rw some_held contents-after
    ]

    read : List ℕ
    read = dequeue_ptrs r r.cons.tail buffer count

    copied :
        n ≤ length buffer
        → (length read ≡ length buffer)
          × ((i : ℕ) → i < count → get_or read i 0 ≡ get_or r.slots ((r.cons.tail + i) % r.size) 0)
          × ((j : ℕ) → count ≤ j → get_or read j 0 ≡ get_or buffer j 0)
    unfolding read
    copied room =
        dequeue_ptrs_lem v.shape r.cons.tail buffer count
          (omega (arith, count_bounds.0, v.stored, v.spare)) (omega (arith, count_bounds.1))

    -- The buffer starts with the oldest objects.
    objects-dequeued : n ≤ length buffer → take count dequeued.objects ≡ take count (contents r)
    unfolding dequeued read
    objects-dequeued room = elim (Bool-cases (count == 0)) [
      | inl none_held ↦ rw (none_held, (==_iff count 0).0 none_held)
      | inr some_held ↦ rw some_held (
          sym (
            items-take r.slots read r.size r.cons.tail 0 count
              (λ i p. rw (zero-add i) (sym ((copied room).1 i p)))
              (omega (arith, (copied room).0, count_bounds.1)))
          ∙ sym (take-items r.slots r.size r.cons.tail count (used r) count_bounds.0))
    ]

    kept-dequeued :
        n ≤ length buffer → (j : ℕ) → count ≤ j → get_or dequeued.objects j 0 ≡ get_or buffer j 0
    unfolding dequeued read
    kept-dequeued room j p = elim (Bool-cases (count == 0)) [
      | inl none_held ↦ rw none_held
      | inr some_held ↦ rw some_held ((copied room).2 j p)
    ]

    fits-dequeued : n ≤ length buffer → length dequeued.objects ≡ length buffer
    unfolding dequeued read
    fits-dequeued room = elim (Bool-cases (count == 0)) [
      | inl none_held ↦ rw none_held
      | inr some_held ↦ rw some_held (copied room).0
    ]

    capacity-dequeued : dequeued.ring.capacity ≡ r.capacity
    unfolding dequeued after
    capacity-dequeued = ground arith

-- What a dequeue promises: it ends, keeps the invariant and the capacity, gives as many objects as
-- the bounded queue gives, oldest first, at the front of the caller's buffer, leaves the rest of the
-- buffer and the rest of the queue, and reports how many objects remain.
pub record Dequeues (r : Ring) (buffer : List ℕ) (n : ℕ) (b : Behavior) (d : Dequeued)
    : Type 0 where
  pub valid : IsValid d.ring
  pub queue : (d.count, take d.count d.objects, contents d.ring) ≡ Queue.dequeue b n (contents r)
  pub kept : (j : ℕ) → d.count ≤ j → get_or d.objects j 0 ≡ get_or buffer j 0
  pub fits : length d.objects ≡ length buffer
  pub remaining : d.available ≡ length (contents d.ring)
  pub capacity : d.ring.capacity ≡ r.capacity

dequeued-Dequeues :
    {r : Ring} (buffer : List ℕ) (n : ℕ) (b : Behavior) (is_sc : ℕ)
    → IsValid r
    → n ≤ length buffer
    → Dequeues r buffer n b (dequeued r buffer n b)
unfolding dequeued Queue.dequeue
dequeued-Dequeues {r} buffer n b is_sc v room = record {
  valid = dequeued-IsValid r buffer n b v is_sc;
  queue = rw (length-contents r) (
      ap₂ {C = ℕ × List ℕ × List ℕ} (λ (t u : List ℕ). (count r buffer n b, t, u))
        (objects-dequeued r buffer n b v is_sc room) (contents-dequeued r buffer n b v is_sc));
  kept = kept-dequeued r buffer n b v is_sc room;
  fits = fits-dequeued r buffer n b v is_sc room;
  remaining = omega (
    arith,
    ap length (contents-dequeued r buffer n b v is_sc),
    length-drop (count r buffer n b) (contents r),
    length-contents r,
    length-contents (dequeued r buffer n b).ring,
  );
  capacity = capacity-dequeued r buffer n b v is_sc;
}

-- On a valid ring, with room for `n` objects in the caller's buffer, `__rte_ring_do_dequeue` ends
-- and does what `Queue.dequeue` does: the count, the objects at the front of the buffer, the queue
-- left; the rest of the buffer stays, the remaining number is reported, and the result is valid with
-- the same capacity. This holds for both behaviours, and for single and multiple consumers.
pub do_dequeue_refines :
    {r : Ring} (buffer : List ℕ) (n : ℕ) (b : Behavior) (is_sc : ℕ)
    → IsValid r
    → n ≤ length buffer
    → (d : Dequeued) × (do_dequeue r buffer n b is_sc ≡ some d) × Dequeues r buffer n b d
do_dequeue_refines {r} buffer n b is_sc v room = (
  dequeued r buffer n b,
  do_dequeue-dequeued r buffer n b v is_sc,
  dequeued-Dequeues buffer n b is_sc v room,
)
