-- ===== src/Ring/Single.antt =====
-- Transfers of one object, `rte_ring_enqueue` and `rte_ring_dequeue`.
use mathlib.Core.List.{append-nil}
use rte_demo.Prelude.{
  ℕ, zero, suc, ◌-◌, ◌≡◌, refl, sym, ap, ◌∙◌, arith, List, [], ◌∷◌, ◌++◌, length, take, get_or,
  Option, some, ltb, ◌==◌, if◌then◌else◌, Bool-cases, inl, inr, ◌⊎◌, false,
}
use rte_demo.Ring.Types.{fixed, enobufs, enoent, Result, ok, err, Ring, is_single, is_multi}
use rte_demo.Ring.Queue
use rte_demo.Ring.Queue.{moved}
use rte_demo.Ring.Invariant.{IsValid, contents}
use rte_demo.Ring.Transfer.{Enqueued, Dequeued, do_enqueue, do_dequeue}
use rte_demo.Ring.Enqueue.{Enqueues, do_enqueue_refines}
use rte_demo.Ring.Dequeue.{Dequeues, do_dequeue_refines}
use rte_demo.Ring.Api.{
  mp_enqueue, sp_enqueue, enqueue, mp_enqueue_bulk, sp_enqueue_bulk, enqueue_bulk, enqueue_status,
  mc_dequeue, sc_dequeue, dequeue, mc_dequeue_bulk, sc_dequeue_bulk, dequeue_bulk, dequeue_status,
}

-- What one enqueue returns and leaves: room for one more, or none.
abbrev pub EnqueuedOne : Ring → ℕ → Result (Unit {0}) × Ring → Type 0
EnqueuedOne r obj (s, r') =
    IsValid r'
    × (r'.capacity ≡ r.capacity)
    × (s ≡ (if ltb (length (contents r)) r.capacity then ok tt else err enobufs))
    × (contents r'
        ≡ (if ltb (length (contents r)) r.capacity then contents r ++ (obj ∷ []) else contents r))

enqueued-one :
    {r : Ring} (obj : ℕ) (e : Enqueued)
    → IsValid r
    → Enqueues r (obj ∷ []) 1 fixed e
    → EnqueuedOne r obj (if e.count == 0 then err enobufs else ok tt, e.ring)
unfolding Queue.enqueue
enqueued-one {r} obj e v spec = (
  spec.valid,
  spec.capacity,
  ground (arith, ap (λ (t : ℕ × List ℕ). t.0) spec.queue),
  elim (Bool-cases (ltb (r.capacity - length (contents r)) 1)) [
    | inl none_fits ↦
        ap (λ (t : ℕ × List ℕ). t.1) spec.queue
        ∙ rw none_fits (ground (arith, append-nil (contents r), none_fits))
    | inr some_fit ↦
        ap (λ (t : ℕ × List ℕ). t.1) spec.queue ∙ rw some_fit (ground (arith, some_fit))
  ],
)

-- A call that ends with `EnqueuedOne`.
abbrev pub EndsEnqueued : Ring → ℕ → Option (Result (Unit {0}) × Ring) → Type 0
EndsEnqueued r obj call =
    (out : Result (Unit {0}) × Ring) × (call ≡ some out) × EnqueuedOne r obj out

enqueue_one :
    {r : Ring} (obj is_sp : ℕ)
    → IsValid r
    → EndsEnqueued r obj (enqueue_status (do_enqueue r (obj ∷ []) 1 fixed is_sp))
enqueue_one obj is_sp v =
    let (e, ran, spec) = do_enqueue_refines (obj ∷ []) 1 fixed is_sp v (omega arith) in
    ((if e.count == 0 then err enobufs else ok tt, e.ring), rw ran, enqueued-one obj e v spec)

-- On a valid ring each of the three functions that enqueue one object ends: with 0, and the object
-- behind the others, if there is room; with -ENOBUFS and the same objects if the ring is full. The
-- ring stays valid and keeps its capacity.
pub enqueue_lem :
    {r : Ring} (obj : ℕ)
    → IsValid r
    → EndsEnqueued r obj (mp_enqueue r obj)
      × EndsEnqueued r obj (sp_enqueue r obj)
      × EndsEnqueued r obj (enqueue r obj)
unfolding mp_enqueue sp_enqueue enqueue mp_enqueue_bulk sp_enqueue_bulk enqueue_bulk
enqueue_lem {r} obj v =
    (enqueue_one obj is_multi v, enqueue_one obj is_single v, enqueue_one obj r.prod.single v)

-- What one dequeue returns and leaves: the oldest object, or none.
abbrev pub DequeuedOne : Ring → Result ℕ × Ring → Type 0
DequeuedOne r (s, r') =
    IsValid r'
    × (r'.capacity ≡ r.capacity)
    × ((contents r ≡ []) × (s ≡ err enoent) × (contents r' ≡ [])
        ⊎ ((obj : ℕ) × (contents r ≡ obj ∷ contents r') × (s ≡ ok obj)))

dequeue_of_cons : (x : ℕ) (q : List ℕ) → Queue.dequeue fixed 1 (x ∷ q) ≡ (1, x ∷ [], q)
unfolding Queue.dequeue
dequeue_of_cons x q = let full : ltb (suc (length q)) 1 ≡ false = ground arith in rw full

head_of_take : (x n : ℕ) (xs : List ℕ) → n ≡ 1 → take n xs ≡ x ∷ [] → get_or xs 0 0 ≡ x
head_of_take x zero xs p e = absurd (omega arith)
head_of_take x (suc n) [] p e = cc
head_of_take x (suc n) (y ∷ xs) p e = cc

dequeued-one :
    {r : Ring} (obj_p : ℕ) (d : Dequeued)
    → IsValid r
    → Dequeues r (obj_p ∷ []) 1 fixed d
    → DequeuedOne r (if d.count == 0 then err enoent else ok (get_or d.objects 0 0), d.ring)
unfolding Queue.dequeue
dequeued-one {r} obj_p d v spec = (spec.valid, spec.capacity, by_queue (contents r) spec.queue)
  where
    by_queue :
        (q : List ℕ)
        → (d.count, take d.count d.objects, contents d.ring) ≡ Queue.dequeue fixed 1 q
        → ((q ≡ [])
              × ((if d.count == 0 then err enoent else ok (get_or d.objects 0 0)) ≡ err enoent)
              × (contents d.ring ≡ [])
            ⊎ ((obj : ℕ) × (q ≡ obj ∷ contents d.ring)
                × ((if d.count == 0 then err enoent else ok (get_or d.objects 0 0)) ≡ ok obj)))
    by_queue [] e = inl (
      refl,
      ground (arith, ap (λ (t : ℕ × List ℕ × List ℕ). t.0) e),
      ap (λ (t : ℕ × List ℕ × List ℕ). t.2) e,
    )
    by_queue (x ∷ q) e =
        let one = e ∙ dequeue_of_cons x q in
        inr (
          x,
          ap (λ (t : List ℕ). x ∷ t) (sym (ap (λ (t : ℕ × List ℕ × List ℕ). t.2) one)),
          ground (
            arith,
            ap (λ (t : ℕ × List ℕ × List ℕ). t.0) one,
            head_of_take x d.count d.objects (ap (λ (t : ℕ × List ℕ × List ℕ). t.0) one)
                (ap (λ (t : ℕ × List ℕ × List ℕ). t.1) one),
          ),
        )

-- A call that ends with `DequeuedOne`.
abbrev pub EndsDequeued : Ring → Option (Result ℕ × Ring) → Type 0
EndsDequeued r call = (out : Result ℕ × Ring) × (call ≡ some out) × DequeuedOne r out

dequeue_one :
    {r : Ring} (obj_p is_sc : ℕ)
    → IsValid r
    → EndsDequeued r (dequeue_status (do_dequeue r (obj_p ∷ []) 1 fixed is_sc))
dequeue_one obj_p is_sc v =
    let (d, ran, spec) = do_dequeue_refines (obj_p ∷ []) 1 fixed is_sc v (omega arith) in
    (
      (if d.count == 0 then err enoent else ok (get_or d.objects 0 0), d.ring),
      rw ran,
      dequeued-one obj_p d v spec,
    )

-- On a valid ring each of the three functions that dequeue one object ends: with the oldest object,
-- which is taken off the queue, or with -ENOENT if the ring is empty, which it then stays. The ring
-- stays valid and keeps its capacity.
pub dequeue_lem :
    {r : Ring} (obj_p : ℕ)
    → IsValid r
    → EndsDequeued r (mc_dequeue r obj_p)
      × EndsDequeued r (sc_dequeue r obj_p)
      × EndsDequeued r (dequeue r obj_p)
unfolding mc_dequeue sc_dequeue dequeue mc_dequeue_bulk sc_dequeue_bulk dequeue_bulk
dequeue_lem {r} obj_p v =
    (dequeue_one obj_p is_multi v, dequeue_one obj_p is_single v, dequeue_one obj_p r.cons.single v)
