-- ===== src/Ring/Api.antt =====
-- The functions of lib/librte_ring/rte_ring.h that a program calls: bulk and burst transfers with
-- one or many producers and consumers, transfers of one object, and the counts.
use rte_demo.Prelude.{
  ℕ, List, [], ◌∷◌, Option, some, Bool, get_or, bit_and, ltb, ◌==◌, if◌then◌else◌,
}
use rte_demo.Word.{sub32}
use rte_demo.Ring.Types.{
  fixed, variable, enobufs, enoent, Result, ok, err, Ring, is_single, is_multi,
}
use rte_demo.Ring.Transfer.{Enqueued, Dequeued, do_enqueue, do_dequeue, ◌>>=◌}

unfoldable pub mp_enqueue_bulk : Ring → List ℕ → ℕ → Option Enqueued
mp_enqueue_bulk r obj_table n = do_enqueue r obj_table n fixed is_multi

unfoldable pub sp_enqueue_bulk : Ring → List ℕ → ℕ → Option Enqueued
sp_enqueue_bulk r obj_table n = do_enqueue r obj_table n fixed is_single

unfoldable pub enqueue_bulk : Ring → List ℕ → ℕ → Option Enqueued
enqueue_bulk r obj_table n = do_enqueue r obj_table n fixed r.prod.single

unfoldable pub mp_enqueue_burst : Ring → List ℕ → ℕ → Option Enqueued
mp_enqueue_burst r obj_table n = do_enqueue r obj_table n variable is_multi

unfoldable pub sp_enqueue_burst : Ring → List ℕ → ℕ → Option Enqueued
sp_enqueue_burst r obj_table n = do_enqueue r obj_table n variable is_single

unfoldable pub enqueue_burst : Ring → List ℕ → ℕ → Option Enqueued
enqueue_burst r obj_table n = do_enqueue r obj_table n variable r.prod.single

unfoldable pub mc_dequeue_bulk : Ring → List ℕ → ℕ → Option Dequeued
mc_dequeue_bulk r obj_table n = do_dequeue r obj_table n fixed is_multi

unfoldable pub sc_dequeue_bulk : Ring → List ℕ → ℕ → Option Dequeued
sc_dequeue_bulk r obj_table n = do_dequeue r obj_table n fixed is_single

unfoldable pub dequeue_bulk : Ring → List ℕ → ℕ → Option Dequeued
dequeue_bulk r obj_table n = do_dequeue r obj_table n fixed r.cons.single

unfoldable pub mc_dequeue_burst : Ring → List ℕ → ℕ → Option Dequeued
mc_dequeue_burst r obj_table n = do_dequeue r obj_table n variable is_multi

unfoldable pub sc_dequeue_burst : Ring → List ℕ → ℕ → Option Dequeued
sc_dequeue_burst r obj_table n = do_dequeue r obj_table n variable is_single

unfoldable pub dequeue_burst : Ring → List ℕ → ℕ → Option Dequeued
dequeue_burst r obj_table n = do_dequeue r obj_table n variable r.cons.single

-- `rte_ring_*_enqueue_bulk(r, &obj, 1, NULL) ? 0 : -ENOBUFS`, with the ring after the call.
abbrev pub enqueue_status : Option Enqueued → Option (Result (Unit {0}) × Ring)
enqueue_status o = do e ← o; some (if e.count == 0 then err enobufs else ok tt, e.ring)

unfoldable pub mp_enqueue : Ring → ℕ → Option (Result (Unit {0}) × Ring)
mp_enqueue r obj = enqueue_status (mp_enqueue_bulk r (obj ∷ []) 1)

unfoldable pub sp_enqueue : Ring → ℕ → Option (Result (Unit {0}) × Ring)
sp_enqueue r obj = enqueue_status (sp_enqueue_bulk r (obj ∷ []) 1)

unfoldable pub enqueue : Ring → ℕ → Option (Result (Unit {0}) × Ring)
enqueue r obj = enqueue_status (enqueue_bulk r (obj ∷ []) 1)

-- `rte_ring_*_dequeue_bulk(r, obj_p, 1, NULL) ? 0 : -ENOENT`; a success comes with `*obj_p`.
abbrev pub dequeue_status : Option Dequeued → Option (Result ℕ × Ring)
dequeue_status o = do
  d ← o
  some (if d.count == 0 then err enoent else ok (get_or d.objects 0 0), d.ring)

-- `obj_p` is the content of `*obj_p` before the call.
unfoldable pub mc_dequeue : Ring → ℕ → Option (Result ℕ × Ring)
mc_dequeue r obj_p = dequeue_status (mc_dequeue_bulk r (obj_p ∷ []) 1)

unfoldable pub sc_dequeue : Ring → ℕ → Option (Result ℕ × Ring)
sc_dequeue r obj_p = dequeue_status (sc_dequeue_bulk r (obj_p ∷ []) 1)

unfoldable pub dequeue : Ring → ℕ → Option (Result ℕ × Ring)
dequeue r obj_p = dequeue_status (dequeue_bulk r (obj_p ∷ []) 1)

unfoldable pub ring_count : Ring → ℕ
ring_count r =
    let count = bit_and (sub32 r.prod.tail r.cons.tail) r.mask in
    if ltb r.capacity count then r.capacity else count

unfoldable pub free_count : Ring → ℕ
free_count r = sub32 r.capacity (ring_count r)

unfoldable pub full : Ring → Bool
full r = free_count r == 0

unfoldable pub empty : Ring → Bool
empty r = ring_count r == 0

unfoldable pub get_size : Ring → ℕ
get_size r = r.size

unfoldable pub get_capacity : Ring → ℕ
get_capacity r = r.capacity
