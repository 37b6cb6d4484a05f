-- ===== src/Mempool/Api.antt =====
-- The functions of lib/librte_mempool/rte_mempool.h and rte_mempool.c that a program calls on a pool
-- that is there: put and get with the cache of its core, and the counts.
use rte_demo.Prelude.{
  ℕ, List, [], ◌∷◌, Option, some, Bool, true, false, get_or, ltb, ◌==◌, if◌then◌else◌,
}
use rte_demo.Word.{add32, sub32}
use rte_demo.Ring.Types.{Result}
use rte_demo.Ring.Transfer.{◌>>=◌}
use rte_demo.Mempool.Store.{Store}
use rte_demo.Mempool.Cache.{Cache, default_cache, generic_put, generic_get}
use rte_demo.Mempool.Types.{Pool, cache_at, put_back}

module _ (store : Store) where
  unfoldable pub put_bulk : Pool store → List ℕ → ℕ → (lcore_id : ℕ) → Option (Pool store)
  put_bulk mp obj_table n lcore_id = do
    let at = default_cache mp.cache_size lcore_id
    (s, cache) ← generic_put store mp.pool_data obj_table n (cache_at mp at)
    some (put_back mp at s cache)

  unfoldable pub put : Pool store → ℕ → (lcore_id : ℕ) → Option (Pool store)
  unfolding put_bulk
  put mp obj lcore_id = put_bulk mp (obj ∷ []) 1 lcore_id

  unfoldable pub get_bulk :
      Pool store → List ℕ → ℕ → (lcore_id : ℕ) → Option (Result (Unit {0}) × List ℕ × Pool store)
  get_bulk mp obj_table n lcore_id = do
    let at = default_cache mp.cache_size lcore_id
    got ← generic_get store mp.pool_data obj_table n (cache_at mp at)
    some (got.ret, got.table, put_back mp at got.data' got.cache)

  -- `obj_p` is the content of `*obj_p` before the call; it comes back with its content after it.
  unfoldable pub get : Pool store → ℕ → (lcore_id : ℕ) → Option (Result (Unit {0}) × ℕ × Pool store)
  unfolding get_bulk
  get mp obj_p lcore_id = do
    (ret, table, mp') ← get_bulk mp (obj_p ∷ []) 1 lcore_id
    some (ret, get_or table 0 obj_p, mp')

  -- The loop over the caches.
  unfoldable pub add_lens : ℕ → List Cache → ℕ
  add_lens count [] = count
  add_lens count (cache ∷ caches) = add_lens (add32 count cache.len) caches

  unfoldable pub avail_count : Pool store → ℕ
  unfolding add_lens
  avail_count mp =
      let found = store.get_count mp.pool_data in
      let count = add_lens found mp.local_cache in
      if mp.cache_size == 0 then found else if ltb mp.size count then mp.size else count

  unfoldable pub in_use_count : Pool store → ℕ
  unfolding avail_count
  in_use_count mp = sub32 mp.size (avail_count mp)

  unfoldable pub full : Pool store → Bool
  unfolding avail_count
  full mp = avail_count mp == mp.size

  unfoldable pub empty : Pool store → Bool
  unfolding avail_count
  empty mp = avail_count mp == 0

  -- `mempool_audit_cache`: `true` where it returns, `false` where it panics.
  unfoldable pub audit_caches : List Cache → Bool
  audit_caches [] = true
  audit_caches (cache ∷ caches) =
      if ltb cache.flushthresh cache.len then false else audit_caches caches

  -- `rte_mempool_audit`
  unfoldable pub audit : Pool store → Bool
  unfolding audit_caches
  audit mp = if mp.cache_size == 0 then true else audit_caches mp.local_cache
