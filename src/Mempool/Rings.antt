-- ===== src/Mempool/Rings.antt =====
-- A ring keeps the promises of a pool's store, under each of the four tables of the driver.
use mathlib.Core.List.{append-nil}
use rte_demo.Prelude.{
  ℕ, ◌+◌, ◌-◌, ◌≤◌, ◌<◌, ◌≡◌, sym, ap, ◌∙◌, ◌⊎◌, inl, inr, arith, List, [], ◌++◌, length, take,
  drop, some, ltb, ◌==◌, if◌then◌else◌, Bool-cases, true, false,
}
use rte_demo.Ring.Types.{Result, ok, err, enobufs, fixed, Ring, is_single, is_multi}
use rte_demo.Ring.Transfer.{Enqueued, Dequeued, do_enqueue, do_dequeue}
use rte_demo.Ring.Queue
use rte_demo.Ring.Invariant.{IsValid, contents, length-contents}
use rte_demo.Ring.Enqueue.{Enqueues, do_enqueue_refines}
use rte_demo.Ring.Dequeue.{Dequeues, do_dequeue_refines}
use rte_demo.Ring.Counts.{counts_lem}
use rte_demo.Ring.Api.{
  mp_enqueue_bulk, sp_enqueue_bulk, mc_dequeue_bulk, sc_dequeue_bulk, enqueue_status,
}
use rte_demo.Mempool.Store.{Laws, status}
use rte_demo.Mempool.Driver.{
  common_ring_mp_enqueue, common_ring_sp_enqueue, common_ring_mc_dequeue, common_ring_sc_dequeue,
  bulk_status, common_ring_get_count, Variant, mp_mc, sp_sc, mp_sc, sp_mc, enqueue_of, dequeue_of,
  ops,
}

-- What an enqueue of the driver does to the ring.
abbrev pub PutOutcome : Ring → List ℕ → ℕ → Result (Unit {0}) → Ring → Type 0
PutOutcome r objs n ret r' =
    IsValid r'
    × (r'.capacity ≡ r.capacity)
    × (((length (contents r) + n ≤ r.capacity)
          × (ret ≡ status n)
          × (contents r' ≡ contents r ++ take n objs))
        ⊎ ((r.capacity < length (contents r) + n)
            × (ret ≡ err enobufs)
            × (contents r' ≡ contents r)))

count_status : (m n : ℕ) → m ≡ n → (if m == 0 then err enobufs else ok tt) ≡ status n
count_status m n e = rw e

refused_put :
    (limit n : ℕ) (words q : List ℕ)
    → ltb (limit - length q) n ≡ true
    → Queue.enqueue limit fixed n words q ≡ (0, q)
unfolding Queue.enqueue
refused_put limit n words q e = rw (e, append-nil q)

taken_put :
    (limit n : ℕ) (words q : List ℕ)
    → ltb (limit - length q) n ≡ false
    → Queue.enqueue limit fixed n words q ≡ (n, q ++ take n words)
unfolding Queue.enqueue
taken_put limit n words q e = rw e

enqueue_outcome :
    {r : Ring} (objs : List ℕ) (n is_sp : ℕ)
    → IsValid r
    → n ≤ length objs
    → (ret : Result (Unit {0})) × (r' : Ring) × (enqueue_status (do_enqueue r objs n fixed is_sp)
        ≡ some (ret, r'))
      × PutOutcome r objs n ret r'
enqueue_outcome {r} objs n is_sp v given =
    let (e, ran, done) = do_enqueue_refines objs n fixed is_sp v given in
    (
      if e.count == 0 then err enobufs else ok tt,
      e.ring,
      rw ran,
      (
        done.valid,
        done.capacity,
        branch e done (Bool-cases (ltb (r.capacity - length (contents r)) n)),
      ),
    )
  where
    Branch : Enqueued → Type 0
    Branch e =
        ((length (contents r) + n ≤ r.capacity)
          × ((if e.count == 0 then err enobufs else ok tt) ≡ status n)
          × (contents e.ring ≡ contents r ++ take n objs))
        ⊎ ((r.capacity < length (contents r) + n)
            × ((if e.count == 0 then err enobufs else ok tt) ≡ err enobufs)
            × (contents e.ring ≡ contents r))

    branch :
        (e : Enqueued)
        → Enqueues r objs n fixed e
        → (ltb (r.capacity - length (contents r)) n ≡ true)
          ⊎ (ltb (r.capacity - length (contents r)) n ≡ false)
        → Branch e
    branch e done (inl short) =
        let same = done.queue ∙ refused_put r.capacity n objs (contents r) short in
        inr (
          ground arith,
          count_status e.count 0 (ap (λ (t : ℕ × List ℕ). t.0) same),
          ap (λ (t : ℕ × List ℕ). t.1) same,
        )
    branch e done (inr fits) =
        let added = done.queue ∙ taken_put r.capacity n objs (contents r) fits in
        inl (
          ground (arith, v.stored, length-contents r),
          count_status e.count n (ap (λ (t : ℕ × List ℕ). t.0) added),
          ap (λ (t : ℕ × List ℕ). t.1) added,
        )

-- What a dequeue of the driver does to the ring and the caller's table.
abbrev pub GetOutcome : Ring → List ℕ → ℕ → Result (Unit {0}) → List ℕ → Ring → Type 0
GetOutcome r table n ret out r' =
    IsValid r'
    × (r'.capacity ≡ r.capacity)
    × (length out ≡ length table)
    × (((n ≤ length (contents r))
          × (ret ≡ status n)
          × (take n out ≡ take n (contents r))
          × (contents r' ≡ drop n (contents r)))
        ⊎ ((length (contents r) < n) × (ret ≡ err enobufs) × (contents r' ≡ contents r)))

refused_get : (n : ℕ) (q : List ℕ) → ltb (length q) n ≡ true → Queue.dequeue fixed n q ≡ (0, [], q)
unfolding Queue.dequeue
refused_get n q e = rw e

taken_get :
    (n : ℕ) (q : List ℕ)
    → ltb (length q) n ≡ false
    → Queue.dequeue fixed n q ≡ (n, take n q, drop n q)
unfolding Queue.dequeue
taken_get n q e = rw e

dequeue_outcome :
    {r : Ring} (table : List ℕ) (n is_sc : ℕ)
    → IsValid r
    → n ≤ length table
    → (ret : Result (Unit {0})) × (out : List ℕ) × (r' : Ring) × (bulk_status
          (do_dequeue r table n fixed is_sc)
        ≡ some (ret, out, r'))
      × GetOutcome r table n ret out r'
dequeue_outcome {r} table n is_sc v given =
    let (d, ran, done) = do_dequeue_refines table n fixed is_sc v given in
    (
      if d.count == 0 then err enobufs else ok tt,
      d.objects,
      d.ring,
      rw ran,
      (
        done.valid,
        done.capacity,
        done.fits,
        branch d done (Bool-cases (ltb (length (contents r)) n)),
      ),
    )
  where
    Branch : Dequeued → Type 0
    Branch d =
        ((n ≤ length (contents r))
          × ((if d.count == 0 then err enobufs else ok tt) ≡ status n)
          × (take n d.objects ≡ take n (contents r))
          × (contents d.ring ≡ drop n (contents r)))
        ⊎ ((length (contents r) < n)
            × ((if d.count == 0 then err enobufs else ok tt) ≡ err enobufs)
            × (contents d.ring ≡ contents r))

    branch :
        (d : Dequeued)
        → Dequeues r table n fixed d
        → (ltb (length (contents r)) n ≡ true) ⊎ (ltb (length (contents r)) n ≡ false)
        → Branch d
    branch d done (inl short) =
        let same = done.queue ∙ refused_get n (contents r) short in
        inr (
          ground arith,
          count_status d.count 0 (ap (λ (t : ℕ × List ℕ × List ℕ). t.0) same),
          ap (λ (t : ℕ × List ℕ × List ℕ). t.2) same,
        )
    branch d done (inr fits) =
        let gone = done.queue ∙ taken_get n (contents r) fits in
        let all : d.count ≡ n = ap (λ (t : ℕ × List ℕ × List ℕ). t.0) gone in
        inl (
          ground arith,
          count_status d.count n all,
          ap (λ (t : ℕ). take t d.objects) (sym all) ∙ ap (λ (t : ℕ × List ℕ × List ℕ). t.1) gone,
          ap (λ (t : ℕ × List ℕ × List ℕ). t.2) gone,
        )

-- On a valid ring, an enqueue of each of the four tables ends, keeps the ring valid and its
-- capacity, and either all objects fit and join the contents at the end, or it returns -ENOBUFS and
-- the contents are the same; of no objects, it returns -ENOBUFS too.
pub ring_enqueue_lem :
    {r : Ring} (variant : Variant) (obj_table : List ℕ) (n : ℕ)
    → IsValid r
    → n ≤ length obj_table
    → (ret : Result (Unit {0})) × (r' : Ring) × ((ops variant).enqueue r obj_table n
        ≡ some (ret, r'))
      × PutOutcome r obj_table n ret r'
unfolding common_ring_mp_enqueue common_ring_sp_enqueue mp_enqueue_bulk sp_enqueue_bulk
ring_enqueue_lem mp_mc obj_table n = enqueue_outcome obj_table n is_multi
ring_enqueue_lem sp_sc obj_table n = enqueue_outcome obj_table n is_single
ring_enqueue_lem mp_sc obj_table n = enqueue_outcome obj_table n is_multi
ring_enqueue_lem sp_mc obj_table n = enqueue_outcome obj_table n is_single

-- On a valid ring, a dequeue of each of the four tables ends, keeps the ring valid, its capacity and
-- the length of the caller's table, and either the oldest `n` objects move to the head of the
-- table, or there are fewer, it returns -ENOBUFS and the contents are the same; of no objects, it
-- returns -ENOBUFS too.
pub ring_dequeue_lem :
    {r : Ring} (variant : Variant) (obj_table : List ℕ) (n : ℕ)
    → IsValid r
    → n ≤ length obj_table
    → (ret : Result (Unit {0})) × (out : List ℕ) × (r' : Ring) × ((ops variant).dequeue r obj_table
          n
        ≡ some (ret, out, r'))
      × GetOutcome r obj_table n ret out r'
unfolding common_ring_mc_dequeue common_ring_sc_dequeue mc_dequeue_bulk sc_dequeue_bulk
ring_dequeue_lem mp_mc obj_table n = dequeue_outcome obj_table n is_multi
ring_dequeue_lem sp_sc obj_table n = dequeue_outcome obj_table n is_single
ring_dequeue_lem mp_sc obj_table n = dequeue_outcome obj_table n is_single
ring_dequeue_lem sp_mc obj_table n = dequeue_outcome obj_table n is_multi

pub room_law :
    (variant : Variant) (r : Ring) (objs : List ℕ) (n : ℕ)
    → IsValid r
    → n ≤ length objs
    → length (contents r) + n ≤ r.capacity
    → (r' : Ring) × (enqueue_of variant r objs n ≡ some (status n, r'))
      × IsValid r'
      × (contents r' ≡ contents r ++ take n objs)
      × (r'.capacity ≡ r.capacity)
room_law variant r objs n v given room =
    let (ret, r', ran, (v', same, branch)) = ring_enqueue_lem variant objs n v given in
    elim branch [
      | inl (fits, e, q) ↦ (r', ran ∙ ap (λ (t : Result (Unit {0})). some (t, r')) e, v', q, same)
      | inr (short, e, q) ↦ absurd (omega arith)
    ]

pub enough_law :
    (variant : Variant) (r : Ring) (table : List ℕ) (n : ℕ)
    → IsValid r
    → n ≤ length table
    → n ≤ length (contents r)
    → (out : List ℕ) × (r' : Ring) × (dequeue_of variant r table n ≡ some (status n, out, r'))
      × IsValid r'
      × (take n out ≡ take n (contents r))
      × (length out ≡ length table)
      × (contents r' ≡ drop n (contents r))
      × (r'.capacity ≡ r.capacity)
enough_law variant r table n v given enough =
    let (ret, out, r', ran, (v', same, l, branch)) = ring_dequeue_lem variant table n v given in
    elim branch [
      | inl (fits, e, q, rest) ↦
          (out, r', ran ∙ ap (λ (t : Result (Unit {0})). some (t, out, r')) e, v', q, l, rest, same)
      | inr (short, e, q) ↦ absurd (omega arith)
    ]

pub short_law :
    (variant : Variant) (r : Ring) (table : List ℕ) (n : ℕ)
    → IsValid r
    → n ≤ length table
    → length (contents r) < n
    → (out : List ℕ) × (r' : Ring) × (dequeue_of variant r table n ≡ some (err enobufs, out, r'))
      × IsValid r'
      × (length out ≡ length table)
      × (contents r' ≡ contents r)
      × (r'.capacity ≡ r.capacity)
short_law variant r table n v given short =
    let (ret, out, r', ran, (v', same, l, branch)) = ring_dequeue_lem variant table n v given in
    elim branch [
      | inl (fits, e, q, rest) ↦ absurd (omega arith)
      | inr (few, e, q) ↦
          (out, r', ran ∙ ap (λ (t : Result (Unit {0})). some (t, out, r')) e, v', l, q, same)
    ]

pub count_law : (r : Ring) → IsValid r → common_ring_get_count r ≡ length (contents r)
unfolding common_ring_get_count
count_law r v = (counts_lem v).0

-- The promises of the store.
abbrev pub ring_laws : (variant : Variant) → Laws (ops variant)
ring_laws variant = record {
  IsGood = IsValid;
  held = contents;
  capacity = λ r. r.capacity;
  enqueue_room = room_law variant;
  dequeue_enough = enough_law variant;
  dequeue_short = short_law variant;
  get_count_held = count_law;
}
