-- ===== src/Ring/Client.antt =====
-- A client that issues any sequence of bulk and burst transfers, one after the other, cannot tell a
-- ring from the bounded queue of its contents.
use rte_demo.Prelude.{ℕ, ◌-◌, ◌≡◌, refl, ap, List, [], ◌∷◌, length, take, Option, some}
use native.Mathlib.Nat.{le_refl}
use rte_demo.Ring.Types.{Behavior, fixed, variable, Ring, is_single, is_multi}
use rte_demo.Ring.Queue
use rte_demo.Ring.Queue.{Queue}
use rte_demo.Ring.Invariant.{IsValid, contents}
use rte_demo.Ring.Transfer.{Enqueued, Dequeued, do_enqueue, do_dequeue, ◌>>=◌}
use rte_demo.Ring.Enqueue.{Enqueues, do_enqueue_refines}
use rte_demo.Ring.Dequeue.{Dequeues, do_dequeue_refines}
use rte_demo.Ring.Api.{
  mp_enqueue_bulk, sp_enqueue_bulk, enqueue_bulk, mp_enqueue_burst, sp_enqueue_burst, enqueue_burst,
  mc_dequeue_bulk, sc_dequeue_bulk, dequeue_bulk, mc_dequeue_burst, sc_dequeue_burst, dequeue_burst,
}

-- Which of the three variants of a function is called.
pub data Mode : Type 0 where
  multi single default : Mode

-- The calls: `put` with the caller's objects, `get` with the caller's buffer.
pub data Op : Type 0 where
  put : Mode → Behavior → List ℕ → Op
  get : Mode → Behavior → List ℕ → Op

-- What a client sees: the count and `free_space`, or the objects and `available`.
pub data Reply : Type 0 where
  took : ℕ → ℕ → Reply
  gave : List ℕ → ℕ → Reply

put_call : Mode → Behavior → Ring → List ℕ → ℕ → Option Enqueued
put_call multi fixed = mp_enqueue_bulk
put_call single fixed = sp_enqueue_bulk
put_call default fixed = enqueue_bulk
put_call multi variable = mp_enqueue_burst
put_call single variable = sp_enqueue_burst
put_call default variable = enqueue_burst

get_call : Mode → Behavior → Ring → List ℕ → ℕ → Option Dequeued
get_call multi fixed = mc_dequeue_bulk
get_call single fixed = sc_dequeue_bulk
get_call default fixed = dequeue_bulk
get_call multi variable = mc_dequeue_burst
get_call single variable = sc_dequeue_burst
get_call default variable = dequeue_burst

pub run : Ring → List Op → Option (List Reply)
unfolding put_call get_call
run r [] = some []
run r (put m b words ∷ ops) = do
  e ← put_call m b r words (length words)
  replies ← run e.ring ops
  some (took e.count e.free_space ∷ replies)
run r (get m b buffer ∷ ops) = do
  d ← get_call m b r buffer (length buffer)
  replies ← run d.ring ops
  some (gave (take d.count d.objects) d.available ∷ replies)

-- The same calls on a queue of at most `cap` objects.
pub run_queue : ℕ → Queue → List Op → List Reply
run_queue cap q [] = []
run_queue cap q (put m b words ∷ ops) =
    let (n, q') = Queue.enqueue cap b (length words) words q in
    took n (cap - length q') ∷ run_queue cap q' ops
run_queue cap q (get m b buffer ∷ ops) =
    let (n, objects, q') = Queue.dequeue b (length buffer) q in
    gave objects (length q') ∷ run_queue cap q' ops

put_flag : Mode → Ring → ℕ
put_flag multi r = is_multi
put_flag single r = is_single
put_flag default r = r.prod.single

get_flag : Mode → Ring → ℕ
get_flag multi r = is_multi
get_flag single r = is_single
get_flag default r = r.cons.single

put_call_do :
    (m : Mode) (b : Behavior) (r : Ring) (words : List ℕ) (n : ℕ)
    → put_call m b r words n ≡ do_enqueue r words n b (put_flag m r)
unfolding put_call put_flag mp_enqueue_bulk sp_enqueue_bulk enqueue_bulk mp_enqueue_burst
    sp_enqueue_burst enqueue_burst
put_call_do multi fixed r words n = refl
put_call_do single fixed r words n = refl
put_call_do default fixed r words n = refl
put_call_do multi variable r words n = refl
put_call_do single variable r words n = refl
put_call_do default variable r words n = refl

get_call_do :
    (m : Mode) (b : Behavior) (r : Ring) (buffer : List ℕ) (n : ℕ)
    → get_call m b r buffer n ≡ do_dequeue r buffer n b (get_flag m r)
unfolding get_call get_flag mc_dequeue_bulk sc_dequeue_bulk dequeue_bulk mc_dequeue_burst
    sc_dequeue_burst dequeue_burst
get_call_do multi fixed r buffer n = refl
get_call_do single fixed r buffer n = refl
get_call_do default fixed r buffer n = refl
get_call_do multi variable r buffer n = refl
get_call_do single variable r buffer n = refl
get_call_do default variable r buffer n = refl

put_reply :
    (r : Ring) (m : Mode) (b : Behavior) (words : List ℕ) (ops : List Op) (e : Enqueued)
    → Enqueues r words (length words) b e
    → some (took e.count e.free_space ∷ run_queue e.ring.capacity (contents e.ring) ops)
      ≡ some (run_queue r.capacity (contents r) (put m b words ∷ ops))
unfolding run_queue
put_reply r m b words ops e spec =
    rw (spec.room, spec.capacity)
      (ap
        (λ (t : ℕ × List ℕ).
          some (took t.0 (r.capacity - length t.1) ∷ run_queue r.capacity t.1 ops))
        spec.queue)

get_reply :
    (r : Ring) (m : Mode) (b : Behavior) (buffer : List ℕ) (ops : List Op) (d : Dequeued)
    → Dequeues r buffer (length buffer) b d
    → some (
        gave (take d.count d.objects) d.available ∷ run_queue d.ring.capacity (contents d.ring) ops)
      ≡ some (run_queue r.capacity (contents r) (get m b buffer ∷ ops))
unfolding run_queue
get_reply r m b buffer ops d spec =
    rw (spec.remaining, spec.capacity)
      (ap (λ (t : ℕ × List ℕ × List ℕ). some (gave t.1 (length t.2) ∷ run_queue r.capacity t.2 ops))
        spec.queue)

-- On a valid ring every sequence of bulk and burst calls, of any of their variants, ends, and each
-- call replies what the bounded queue replies: the counts, the objects in first-in first-out order,
-- and the free or remaining numbers.
pub run_refines :
    (ops : List Op) (r : Ring)
    → IsValid r
    → run r ops ≡ some (run_queue r.capacity (contents r) ops)
unfolding run run_queue
run_refines [] r v = refl
run_refines (put m b words ∷ ops) r v =
    let (e, ran, spec) = do_enqueue_refines words (length words) b (put_flag m r) v (le_refl _) in
    rw (put_call_do m b r words (length words), ran, run_refines ops e.ring spec.valid)
      (put_reply r m b words ops e spec)
run_refines (get m b buffer ∷ ops) r v =
    let (d, ran, spec) = do_dequeue_refines buffer (length buffer) b (get_flag m r) v (le_refl _) in
    rw (get_call_do m b r buffer (length buffer), ran, run_refines ops d.ring spec.valid)
      (get_reply r m b buffer ops d spec)
