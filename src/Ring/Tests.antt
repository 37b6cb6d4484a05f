-- ===== src/Ring/Tests.antt =====
-- Runs of the ring at concrete inputs: a ring of 8 slots that holds four objects and whose
-- indices have gone round at 2 ^ 32.
use rte_demo.Prelude.{
  ◌-◌, ◌≤◌, ◌<◌, ◌≡◌, refl, ◌⊎◌, inl, ◌↔◌, arith, true, false, List, [], ◌∷◌, length, none, some,
}
use rte_demo.Word.{align32pow2, smear_all32}
use rte_demo.Ring.Types.{fixed, variable, einval, enametoolong, ok, err, Ring, is_multi, is_single}
use rte_demo.Ring.Table.{IsTable}
use rte_demo.Ring.Transfer.{Enqueued, Dequeued, do_enqueue, do_dequeue}
use rte_demo.Ring.Api.{
  mp_enqueue, sp_enqueue, enqueue, mc_dequeue, sc_dequeue, dequeue, ring_count, free_count, full,
  empty,
}
use rte_demo.Ring.Window.{items}
use rte_demo.Ring.Invariant.{IsValid, contents}
use rte_demo.Ring.Enqueue.{Enqueues, do_enqueue_refines}
use rte_demo.Ring.Dequeue.{Dequeues, do_dequeue_refines}
use rte_demo.Ring.Counts.{counts_lem}
use rte_demo.Ring.Single.{EndsEnqueued, EndsDequeued, enqueue_lem, dequeue_lem}
use rte_demo.Ring.Client.{Op, multi, single, default, put, get, run, run_queue, run_refines}
use rte_demo.Ring.Setup.{has, exact_sz, init}
use rte_demo.Ring.Fresh.{table_size, Starts, init_lem}
use rte_demo.Ring.Sizes.{IsTaken, init_outcomes}

abbrev wrapped : Ring
wrapped = record {
  name = 114 ∷ [];
  flags = 0;
  memzone = none;
  size = 8;
  mask = 7;
  capacity = 7;
  prod = record { head = 2; tail = 2; single = 0 };
  cons = record { head = 4294967294; tail = 4294967294; single = 0 };
  slots = 30 ∷ 31 ∷ 0 ∷ 0 ∷ 0 ∷ 0 ∷ 28 ∷ 29 ∷ [];
}

wrapped-IsTable : IsTable wrapped
wrapped-IsTable = record {
  order = 3;
  order_lt = omega arith;
  size_pow = refl;
  mask_low = refl;
  table = refl;
}

wrapped-IsValid : IsValid wrapped
wrapped-IsValid = record {
  shape = wrapped-IsTable;
  spare = omega arith;
  prod_word = omega arith;
  cons_word = omega arith;
  prod_quiet = refl;
  cons_quiet = refl;
  stored = omega arith;
}

contents-wrapped : contents wrapped ≡ 28 ∷ 29 ∷ 30 ∷ 31 ∷ []
unfolding items
contents-wrapped = refl

abbrev calls : List Op
calls =
    put multi fixed (40 ∷ 41 ∷ [])
    ∷ put single variable (42 ∷ 43 ∷ 44 ∷ [])
    ∷ get default variable (0 ∷ 0 ∷ 0 ∷ [])
    ∷ get multi fixed (0 ∷ 0 ∷ 0 ∷ 0 ∷ 0 ∷ [])
    ∷ []

run_refines_example : run wrapped calls ≡ some (run_queue 7 (contents wrapped) calls)
run_refines_example = run_refines calls wrapped wrapped-IsValid

do_enqueue_refines_example :
    (e : Enqueued) × (do_enqueue wrapped (40 ∷ 41 ∷ 42 ∷ 43 ∷ []) 4 variable is_multi ≡ some e)
    × Enqueues wrapped (40 ∷ 41 ∷ 42 ∷ 43 ∷ []) 4 variable e
do_enqueue_refines_example =
    do_enqueue_refines {r = wrapped} (40 ∷ 41 ∷ 42 ∷ 43 ∷ []) 4 variable is_multi wrapped-IsValid
      (omega arith)

do_dequeue_refines_example :
    (d : Dequeued) × (do_dequeue wrapped (0 ∷ 0 ∷ 0 ∷ []) 3 fixed is_single ≡ some d)
    × Dequeues wrapped (0 ∷ 0 ∷ 0 ∷ []) 3 fixed d
do_dequeue_refines_example =
    do_dequeue_refines {r = wrapped} (0 ∷ 0 ∷ 0 ∷ []) 3 fixed is_single wrapped-IsValid
      (omega arith)

enqueue_lem_example :
    EndsEnqueued wrapped 40 (mp_enqueue wrapped 40)
    × EndsEnqueued wrapped 40 (sp_enqueue wrapped 40)
    × EndsEnqueued wrapped 40 (enqueue wrapped 40)
enqueue_lem_example = enqueue_lem {r = wrapped} 40 wrapped-IsValid

dequeue_lem_example :
    EndsDequeued wrapped (mc_dequeue wrapped 0)
    × EndsDequeued wrapped (sc_dequeue wrapped 0)
    × EndsDequeued wrapped (dequeue wrapped 0)
dequeue_lem_example = dequeue_lem {r = wrapped} 0 wrapped-IsValid

counts_lem_example :
    (ring_count wrapped ≡ length (contents wrapped))
    × (free_count wrapped ≡ 7 - length (contents wrapped))
    × ((full wrapped ≡ true) ↔ (length (contents wrapped) ≡ 7))
    × ((empty wrapped ≡ true) ↔ (contents wrapped ≡ []))
counts_lem_example = counts_lem {r = wrapped} wrapped-IsValid

init_lem_example : Starts (init wrapped (97 ∷ 98 ∷ []) 5 exact_sz) 5
unfolding align32pow2 smear_all32
init_lem_example =
    init_lem wrapped (97 ∷ 98 ∷ []) 5 exact_sz (omega arith) (inl (refl, omega arith)) five
  where
    five : length wrapped.slots ≡ table_size 5 exact_sz
    five = refl

init_outcomes_example :
    ((32 ≤ 2) × ((init wrapped (97 ∷ 98 ∷ []) 12 0).0 ≡ err enametoolong))
    ⊎ ((2 < 32)
        × (has 0 exact_sz ≡ false)
        × (¬ IsTaken 12)
        × ((init wrapped (97 ∷ 98 ∷ []) 12 0).0 ≡ err einval))
    ⊎ ((2 < 32)
        × ((has 0 exact_sz ≡ true) ⊎ IsTaken 12)
        × ((init wrapped (97 ∷ 98 ∷ []) 12 0).0 ≡ ok tt))
init_outcomes_example = init_outcomes wrapped (97 ∷ 98 ∷ []) 12 0 (omega arith)
