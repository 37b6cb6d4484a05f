-- ===== src/Mempool/Tests.antt =====
-- Runs of a pool at concrete inputs: a pool of six objects on a ring of eight slots, with caches.
use rte_demo.Prelude.{
  ℕ, zero, suc, ◌+◌, ◌-◌, ◌*◌, ◌/◌, ◌≤◌, ◌<◌, ◌≡◌, refl, ◌⊎◌, inr, ◌↔◌, arith, true, List, [], ◌∷◌,
  length, take, get_or, replicate, length-replicate, length-append, length-take, weigh, none, some,
}
use rte_demo.Ring.Types.{Errno, Result, ok, err, enobufs, Ring}
use rte_demo.Ring.Invariant.{IsValid, contents}
use rte_demo.Mempool.Cache.{Cache, default_cache}
use rte_demo.Mempool.Splice.{IsFit, cached}
use rte_demo.Mempool.Get.{IsServed}
use rte_demo.Mempool.Types.{Pool, cache_at}
use rte_demo.Mempool.Api.{put_bulk, get_bulk, avail_count, in_use_count, full, empty, audit}
use rte_demo.Mempool.Driver.{mp_mc, sp_sc, ops}
use rte_demo.Mempool.Rings.{PutOutcome, GetOutcome, ring_enqueue_lem, ring_dequeue_lem, ring_laws}
use rte_demo.Mempool.Whole.{all_cached, AllFit, available, IsPool}
use rte_demo.Mempool.Calls.{put_bulk_lem, get_bulk_lem}
use rte_demo.Mempool.Counts.{pool_counts_lem}
use rte_demo.Mempool.Sizes.{optimize_object_size, ObjSize, calc_obj_size}
use rte_demo.Mempool.Sizes.Spread.{IsSpread, optimize_object_size_lem}
use rte_demo.Mempool.Sizes.Objects.{IsLaid, calc_obj_size_lem}
use rte_demo.Mempool.Populate.{populate_loop, free_memchunks}
use rte_demo.Mempool.Ops.{Callbacks, OpsTable, no_ops, register_ops, set_ops_byname}
use rte_demo.Mempool.Named.{IsOps, FirstNamed, set_ops_byname-register_ops}
use rte_demo.Mempool.Populate.Objs.{Ready, Populated, populate_loop_lem}
use rte_demo.Mempool.Populate.Release.{due, free_memchunks_lem}

abbrev ring : Ring
ring = record {
  name = 77 ∷ 80 ∷ 95 ∷ 97 ∷ [];
  flags = 0;
  memzone = none;
  size = 8;
  mask = 7;
  capacity = 7;
  prod = record { head = 2; tail = 2; single = 0 };
  cons = record { head = 4294967294; tail = 4294967294; single = 0 };
  slots = 30 ∷ 31 ∷ 0 ∷ 0 ∷ 0 ∷ 0 ∷ 28 ∷ 29 ∷ [];
}

ring-IsValid : IsValid ring
ring-IsValid = record {
  shape = record {
    order = 3;
    order_lt = omega arith;
    size_pow = refl;
    mask_low = refl;
    table = refl;
  };
  spare = omega arith;
  prod_word = omega arith;
  cons_word = omega arith;
  prod_quiet = refl;
  cons_quiet = refl;
  stored = omega arith;
}

abbrev idle : Cache
idle = record { size = 4; flushthresh = 6; len = 0; objs = replicate 1536 0 }

idle-IsFit : IsFit idle
idle-IsFit = record {
  small = omega arith;
  threshold = omega arith;
  bounded = omega arith;
  below = omega arith;
  array = length-replicate {A = ℕ} 1536 0;
}

abbrev pool : Pool (ops mp_mc)
pool = record {
  name = 97 ∷ [];
  pool_data = ring;
  flags = 16;
  size = 6;
  cache_size = 4;
  elt_size = 8;
  header_size = 64;
  trailer_size = 56;
  private_data_size = 0;
  ops_index = 0;
  pool_config = 0;
  local_cache = replicate 128 idle;
  populated_size = 6;
  elt_list = [];
  nb_mem_chunks = 0;
  mem_list = [];
}

all_idle :
    (n : ℕ) (c : Cache)
    → IsFit c
    → c.len ≡ 0
    → AllFit (replicate n c) × (length (all_cached (replicate n c)) ≡ 0)
all_idle zero c v e = (tt, refl)
all_idle (suc n) c v e =
    let (fit, none_held) = all_idle n c v e in
    (
      (v, fit),
      omega (
        arith,
        length-append (cached c) (all_cached (replicate n c)),
        none_held,
        length-take c.len c.objs,
      ),
    )

ring-length : length (contents ring) ≡ 4
unfolding rte_demo.Ring.Window.items
ring-length = refl

pool-length : length (available (ops mp_mc) (ring_laws mp_mc) pool) ≡ 4
pool-length = omega (
  arith,
  ring-length,
  length-append (contents ring) (all_cached (replicate 128 idle)),
  (all_idle 128 idle idle-IsFit refl).1,
)

pool-IsPool : IsPool (ops mp_mc) (ring_laws mp_mc) pool
pool-IsPool = record {
  good = ring-IsValid;
  fit = (all_idle 128 idle idle-IsFit refl).0;
  many = inr (omega arith, length-replicate 128 idle);
  room = omega arith;
  few = omega (arith, pool-length);
  word = omega arith;
}

put_bulk_lem_example :
    (mp' : Pool (ops mp_mc)) × (put_bulk (ops mp_mc) pool (40 ∷ 41 ∷ []) 2 1 ≡ some mp')
    × IsPool (ops mp_mc) (ring_laws mp_mc) mp'
    × (mp'.size ≡ 6)
    × ((f : ℕ → ℕ)
        → weigh f (available (ops mp_mc) (ring_laws mp_mc) mp')
          ≡ weigh f (available (ops mp_mc) (ring_laws mp_mc) pool)
            + weigh f (take 2 (40 ∷ 41 ∷ [])))
put_bulk_lem_example =
    put_bulk_lem (ops mp_mc) (ring_laws mp_mc) pool (40 ∷ 41 ∷ []) 2 1 pool-IsPool (omega arith)
      (omega (arith, pool-length))

get_bulk_lem_example :
    (ret : Result (Unit {0})) × (table : List ℕ) × (mp' : Pool (ops mp_mc)) × (get_bulk
        (ops mp_mc)
        pool
        (0 ∷ 0 ∷ [])
        2
        1
      ≡ some (ret, table, mp'))
    × IsPool (ops mp_mc) (ring_laws mp_mc) mp'
    × (mp'.size ≡ 6)
    × ((IsServed (ops mp_mc) (ring_laws mp_mc) ring (cache_at pool (default_cache 4 1)) 2
          × (ret ≡ ok tt)
          × (2 ≤ length table)
          × ((f : ℕ → ℕ)
              → weigh f (take 2 table) + weigh f (available (ops mp_mc) (ring_laws mp_mc) mp')
                ≡ weigh f (available (ops mp_mc) (ring_laws mp_mc) pool)))
        ⊎ (¬ IsServed (ops mp_mc) (ring_laws mp_mc) ring (cache_at pool (default_cache 4 1)) 2
            × (ret ≡ err enobufs)
            × ((f : ℕ → ℕ)
                → weigh f (available (ops mp_mc) (ring_laws mp_mc) mp')
                  ≡ weigh f (available (ops mp_mc) (ring_laws mp_mc) pool))))
get_bulk_lem_example =
    get_bulk_lem (ops mp_mc) (ring_laws mp_mc) pool (0 ∷ 0 ∷ []) 2 1 pool-IsPool (omega arith)
      (omega arith)

ring_enqueue_lem_example :
    (ret : Result (Unit {0})) × (r' : Ring) × ((ops sp_sc).enqueue ring (40 ∷ 41 ∷ []) 2
      ≡ some (ret, r'))
    × PutOutcome ring (40 ∷ 41 ∷ []) 2 ret r'
ring_enqueue_lem_example = ring_enqueue_lem sp_sc (40 ∷ 41 ∷ []) 2 ring-IsValid (omega arith)

ring_dequeue_lem_example :
    (ret : Result (Unit {0})) × (out : List ℕ) × (r' : Ring) × ((ops mp_mc).dequeue ring
        (0 ∷ 0 ∷ [])
        2
      ≡ some (ret, out, r'))
    × GetOutcome ring (0 ∷ 0 ∷ []) 2 ret out r'
ring_dequeue_lem_example = ring_dequeue_lem mp_mc (0 ∷ 0 ∷ []) 2 ring-IsValid (omega arith)

pool_counts_lem_example :
    (avail_count (ops mp_mc) pool ≡ length (available (ops mp_mc) (ring_laws mp_mc) pool))
    × (in_use_count (ops mp_mc) pool ≡ 6 - length (available (ops mp_mc) (ring_laws mp_mc) pool))
    × ((full (ops mp_mc) pool ≡ true) ↔ (length (available (ops mp_mc) (ring_laws mp_mc) pool) ≡ 6))
    × ((empty (ops mp_mc) pool ≡ true) ↔ (available (ops mp_mc) (ring_laws mp_mc) pool ≡ []))
    × (audit (ops mp_mc) pool ≡ true)
pool_counts_lem_example = pool_counts_lem (ops mp_mc) (ring_laws mp_mc) pool pool-IsPool

optimize_object_size_lem_example :
    (lines : ℕ) × (optimize_object_size 8 4 2 200 ≡ some (64 * lines))
    × (200 ≤ 64 * lines)
    × (64 * lines < 200 + 64 * (2 * 4))
    × IsSpread ((200 + 63) / 64) (2 * 4) lines
optimize_object_size_lem_example = optimize_object_size_lem 8 4 2 200 (omega arith) (omega arith)

calc_obj_size_lem_example :
    (sz : ObjSize) × (calc_obj_size 4 0 0 100 0 ≡ some sz) × IsLaid (1 * 4) 100 0 sz
calc_obj_size_lem_example = calc_obj_size_lem 4 0 0 100 0 (omega arith) (omega arith)

-- Two objects of the pool are still to come.
abbrev growing : Pool (ops mp_mc)
growing = record pool { populated_size = 4 }

growing-Ready : Ready (ops mp_mc) (ring_laws mp_mc) growing 4096 1000 128 0 0
growing-Ready = record {
  good = ring-IsValid;
  room = omega (arith, ring-length);
  populated = omega arith;
  word = omega arith;
  index = omega arith;
  header = omega arith;
  sum = refl;
  small = omega arith;
  offset = omega arith;
  memory = omega arith;
}

populate_loop_lem_example :
    (n : ℕ) × (mp' : Pool (ops mp_mc)) × (populate_loop (ops mp_mc) 3 growing 4096 1000 128 0 0
      ≡ some (0 + n, mp'))
    × Populated (ops mp_mc) (ring_laws mp_mc) growing 4096 1000 128 0 n mp'
populate_loop_lem_example =
    populate_loop_lem (ops mp_mc) (ring_laws mp_mc) 3 growing 4096 1000 128 0 0 (omega arith)
      growing-Ready

-- All four objects are in the ring.
abbrev stocked : Pool (ops mp_mc)
stocked = record pool {
  populated_size = 4;
  elt_list = 14 ∷ 15 ∷ 16 ∷ 17 ∷ [];
  nb_mem_chunks = 2;
  mem_list =
      record { header = 1000; addr = 10; len = 40; free_cb = some 7; opaque = 3 }
      ∷ record { header = 2000; addr = 60; len = 40; free_cb = none; opaque = 0 }
      ∷ [];
}

free_memchunks_lem_example :
    (mp' : Pool (ops mp_mc)) × (free_memchunks (ops mp_mc) 0 stocked
      ≡ some (due stocked.mem_list, mp'))
    × (contents mp'.pool_data ≡ [])
    × (mp'.elt_list ≡ [])
    × (mp'.populated_size ≡ 0)
    × (mp'.mem_list ≡ [])
    × (mp'.nb_mem_chunks ≡ 0)
free_memchunks_lem_example =
    free_memchunks_lem (ops mp_mc) (ring_laws mp_mc) stocked 0 ring-IsValid ring-length refl
      (omega arith) refl (omega arith)

-- A second entry for a table, and a pool that is not populated yet.
abbrev ops_sp_sc : Callbacks
ops_sp_sc = record {
  name = 115 ∷ [];
  alloc = some 1;
  release = some 2;
  enqueue = some 3;
  dequeue = some 4;
  get_count = some 5;
}

abbrev ops_table : OpsTable
ops_table = record {
  num_ops = 1;
  entries = record ops_sp_sc { name = 109 ∷ [] } ∷ replicate 15 no_ops;
}

abbrev bare : Pool (ops mp_mc)
bare = record pool { flags = 0 }

set_ops_byname-register_ops_example :
    ((e : Errno) × (register_ops ops_table ops_sp_sc ≡ (err e, ops_table)))
    ⊎ ((t' : OpsTable) × (register_ops ops_table ops_sp_sc ≡ (ok 1, t'))
        × IsOps t'
        × (get_or t'.entries 1 no_ops ≡ ops_sp_sc)
        × (j : ℕ) × (set_ops_byname t' bare (115 ∷ []) 5
            ≡ (ok tt, record bare { ops_index = j; pool_config = 5 }))
        × FirstNamed t'.entries (115 ∷ []) 1 j)
set_ops_byname-register_ops_example =
    set_ops_byname-register_ops ops_table ops_sp_sc bare 5 (refl, omega arith) refl
