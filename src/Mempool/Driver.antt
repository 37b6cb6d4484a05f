-- ===== src/Mempool/Driver.antt =====
-- lib/driver/ring/rte_mempool_ring.c: a ring as the store of a pool.
use rte_demo.Prelude.{ℕ, ◌+◌, List, [], ◌∷◌, ◌++◌, Option, some, length, ◌==◌, leb, if◌then◌else◌}
use rte_demo.Word.{add32, align32pow2}
use rte_demo.Ring.Types.{Result, ok, err, enobufs, enametoolong, Ring}
use rte_demo.Ring.Transfer.{Dequeued, ◌>>=◌}
use rte_demo.Ring.Setup.{has, sp_enq, sc_deq}
use rte_demo.Ring.Registry.{ring_namesize}
use rte_demo.Ring.Api.{
  mp_enqueue_bulk, sp_enqueue_bulk, mc_dequeue_bulk, sc_dequeue_bulk, ring_count, enqueue_status,
}
use rte_demo.Mempool.Store.{Store}

unfoldable pub common_ring_mp_enqueue : Ring → List ℕ → ℕ → Option (Result (Unit {0}) × Ring)
common_ring_mp_enqueue pool_data obj_table n =
    enqueue_status (mp_enqueue_bulk pool_data obj_table n)

unfoldable pub common_ring_sp_enqueue : Ring → List ℕ → ℕ → Option (Result (Unit {0}) × Ring)
common_ring_sp_enqueue pool_data obj_table n =
    enqueue_status (sp_enqueue_bulk pool_data obj_table n)

-- `rte_ring_*_dequeue_bulk(mp->pool_data, obj_table, n, NULL) == 0 ? -ENOBUFS : 0`, with the
-- caller's table and the ring after the call.
abbrev pub bulk_status : Option Dequeued → Option (Result (Unit {0}) × List ℕ × Ring)
bulk_status o = do d ← o; some (if d.count == 0 then err enobufs else ok tt, d.objects, d.ring)

unfoldable pub common_ring_mc_dequeue :
    Ring → List ℕ → ℕ → Option (Result (Unit {0}) × List ℕ × Ring)
common_ring_mc_dequeue pool_data obj_table n = bulk_status (mc_dequeue_bulk pool_data obj_table n)

unfoldable pub common_ring_sc_dequeue :
    Ring → List ℕ → ℕ → Option (Result (Unit {0}) × List ℕ × Ring)
common_ring_sc_dequeue pool_data obj_table n = bulk_status (sc_dequeue_bulk pool_data obj_table n)

unfoldable pub common_ring_get_count : Ring → ℕ
common_ring_get_count pool_data = ring_count pool_data

-- The four tables that the driver registers; which of them a pool has is settled when it is made.
pub data Variant : Type 0 where
  mp_mc sp_sc mp_sc sp_mc : Variant

abbrev pub enqueue_of : Variant → Ring → List ℕ → ℕ → Option (Result (Unit {0}) × Ring)
enqueue_of mp_mc = common_ring_mp_enqueue
enqueue_of sp_sc = common_ring_sp_enqueue
enqueue_of mp_sc = common_ring_mp_enqueue
enqueue_of sp_mc = common_ring_sp_enqueue

abbrev pub dequeue_of : Variant → Ring → List ℕ → ℕ → Option (Result (Unit {0}) × List ℕ × Ring)
dequeue_of mp_mc = common_ring_mc_dequeue
dequeue_of sp_sc = common_ring_sc_dequeue
dequeue_of mp_sc = common_ring_sc_dequeue
dequeue_of sp_mc = common_ring_mc_dequeue

abbrev pub ops : Variant → Store
ops variant = record {
  Data = Ring;
  enqueue = enqueue_of variant;
  dequeue = dequeue_of variant;
  get_count = common_ring_get_count;
}

-- `MEMPOOL_F_SP_PUT`, `MEMPOOL_F_SC_GET`
abbrev pub sp_put : ℕ
sp_put = 4

abbrev pub sc_get : ℕ
sc_get = 8

-- `RTE_MEMPOOL_MZ_PREFIX`, "MP_"
abbrev pub mz_prefix : List ℕ
mz_prefix = 77 ∷ 80 ∷ 95 ∷ []

-- The flags of the ring.
unfoldable pub ring_flags : ℕ → ℕ
ring_flags flags =
    (if has flags sp_put then sp_enq else 0) + (if has flags sc_get then sc_deq else 0)

-- `common_ring_alloc` up to the call of `rte_ring_create`: the name, count and flags it asks for.
unfoldable pub common_ring_alloc : (name : List ℕ) (size flags : ℕ) → Result (List ℕ × ℕ × ℕ)
unfolding ring_flags
common_ring_alloc name size flags =
    let rg_name = mz_prefix ++ name in
    if leb ring_namesize (length rg_name)
    then err enametoolong
    else ok (rg_name, align32pow2 (add32 size 1), ring_flags flags)
