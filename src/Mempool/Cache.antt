-- ===== src/Mempool/Cache.antt =====
-- Put and get of lib/librte_mempool/rte_mempool.h, with the cache of the core that calls. Statistics
-- and cookies are off, as lib/rte_config.h leaves them.
use rte_demo.Prelude.{
  ℕ, zero, suc, ◌+◌, ◌-◌, ◌*◌, ◌/◌, List, [], ◌∷◌, ◌++◌, take, drop, get_or, Option, none, some,
  leb, ltb, ◌==◌, if◌then◌else◌,
}
use rte_demo.Word.{add32, sub32}
use rte_demo.Ring.Types.{Result, ok, err}
use rte_demo.Ring.Transfer.{◌>>=◌}
use rte_demo.Mempool.Store.{Store}

-- RTE_MEMPOOL_CACHE_MAX_SIZE of lib/rte_config.h
abbrev pub cache_max_size : ℕ
cache_max_size = 512

-- RTE_MAX_LCORE of lib/rte_config.h
abbrev pub max_lcore : ℕ
max_lcore = 128

-- `struct rte_mempool_cache`; `objs` has `3 * cache_max_size` entries.
pub record Cache : Type 0 where
  pub size : ℕ
  pub flushthresh : ℕ
  pub len : ℕ
  pub objs : List ℕ

-- `memcpy(&objs[at], table, sizeof(void *) * n)`
abbrev pub splice : List ℕ → ℕ → List ℕ → ℕ → List ℕ
splice objs at table n = take at objs ++ (take n table ++ drop (at + n) objs)

-- `CALC_CACHE_FLUSHTHRESH` and `mempool_cache_init` of rte_mempool.c: 1.5 times, rounded down.
unfoldable pub calc_cache_flushthresh : ℕ → ℕ
calc_cache_flushthresh c = c * 3 / 2

unfoldable pub cache_init : Cache → ℕ → Cache
unfolding calc_cache_flushthresh
cache_init cache size = record cache {
  size = size;
  flushthresh = calc_cache_flushthresh size;
  len = 0;
}

-- The index of the cache that `rte_mempool_default_cache` returns, `none` for NULL.
unfoldable pub default_cache : (cache_size lcore_id : ℕ) → Option ℕ
default_cache cache_size lcore_id =
    if cache_size == 0 then none else if leb max_lcore lcore_id then none else some lcore_id

-- The loop that fills the response, from the top of the cache down; `len` is the next index.
unfoldable pub pop_objs : ℕ → ℕ → List ℕ → List ℕ
pop_objs zero len objs = []
pop_objs (suc n) len objs = get_or objs len 0 ∷ pop_objs n (len - 1) objs

module _ (store : Store) where
  -- `ring_enqueue:`; the value returned is dropped.
  unfoldable pub ring_enqueue : store.Data → List ℕ → ℕ → Option store.Data
  ring_enqueue s obj_table n = do (ret, s') ← store.enqueue s obj_table n; some s'

  -- `rte_mempool_cache_flush`
  unfoldable pub cache_flush : Cache → store.Data → Option (store.Data × Cache)
  unfolding ring_enqueue
  cache_flush cache s = do
    s' ← ring_enqueue s cache.objs cache.len
    some (s', record cache { len = 0 })

  -- `__mempool_generic_put` with a cache that has room.
  unfoldable pub cached_put : store.Data → List ℕ → ℕ → Cache → Option (store.Data × Cache)
  unfolding ring_enqueue
  cached_put s obj_table n cache =
      let objs' = splice cache.objs cache.len obj_table n in
      let len' = add32 cache.len n in
      let flushed = do
        s' ← ring_enqueue s (drop cache.size objs') (sub32 len' cache.size)
        some (s', record cache { objs = objs'; len = cache.size })
      in if leb cache.flushthresh len'
        then flushed
        else some (s, record cache { objs = objs'; len = len' })

  -- `__mempool_generic_put`
  unfoldable pub generic_put :
      store.Data → List ℕ → ℕ → Option Cache → Option (store.Data × Option Cache)
  unfolding ring_enqueue cached_put
  generic_put s obj_table n none = do s' ← ring_enqueue s obj_table n; some (s', none)
  generic_put s obj_table n (some cache) =
      let direct = do s' ← ring_enqueue s obj_table n; some (s', some cache)
      in let cached = do (s', cache') ← cached_put s obj_table n cache; some (s', some cache')
        in if ltb cache_max_size n then direct else cached

  -- What a get leaves: the value returned, the caller's table, the store and the cache.
  pub record Got : Type 0 where
    pub ret : Result (Unit {0})
    pub table : List ℕ
    pub data' : store.Data
    pub cache : Option Cache

  -- `ring_dequeue:`
  unfoldable pub ring_dequeue : store.Data → List ℕ → ℕ → Option Cache → Option Got
  ring_dequeue s obj_table n cache = do
    (ret, table', s') ← store.dequeue s obj_table n
    some (record { ret = ret; table = table'; data' = s'; cache = cache })

  -- "Now fill in the response"
  abbrev pub fill : store.Data → List ℕ → ℕ → Cache → Got
  fill s obj_table n cache = record {
    ret = ok tt;
    table = pop_objs n (cache.len - 1) cache.objs ++ drop n obj_table;
    data' = s;
    cache = some (record cache { len = sub32 cache.len n });
  }

  -- What follows the attempt to fill up the cache.
  abbrev pub backfilled :
      List ℕ → ℕ → Cache → ℕ → Result (Unit {0}) → store.Data → Option Got → Option Got
  backfilled obj_table n cache req (ok u) s direct =
      some (fill s obj_table n (record cache { len = add32 cache.len req }))
  backfilled obj_table n cache req (err e) s direct = direct

  -- `__mempool_generic_get` where the cache can serve `n` objects.
  unfoldable pub cached_get : store.Data → List ℕ → ℕ → Cache → Option Got
  unfolding ring_dequeue pop_objs
  cached_get s obj_table n cache =
      let req = add32 n (sub32 cache.size cache.len) in
      let refill = do
        (ret, out, s') ← store.dequeue s (drop cache.len cache.objs) req
        let cache' : Cache = record cache { objs = take cache.len cache.objs ++ out }
        backfilled obj_table n cache' req ret s' (ring_dequeue s' obj_table n (some cache'))
      in if ltb cache.len n then refill else some (fill s obj_table n cache)

  -- `__mempool_generic_get`
  unfoldable pub generic_get : store.Data → List ℕ → ℕ → Option Cache → Option Got
  unfolding ring_dequeue cached_get
  generic_get s obj_table n none = ring_dequeue s obj_table n none
  generic_get s obj_table n (some cache) =
      if leb cache.size n
      then ring_dequeue s obj_table n (some cache)
      else cached_get s obj_table n cache
