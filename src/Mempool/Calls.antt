-- ===== src/Mempool/Calls.antt =====
-- What a put and a get do to a pool as a whole, with the cache of whatever core calls.
use rte_demo.Prelude.{
  ℕ, ◌+◌, ◌≤◌, ◌<◌, ◌≡◌, refl, ◌⊎◌, inl, inr, arith, List, length, take, Option, none, some, weigh,
  length-weigh, length-take,
}
use rte_demo.Ring.Types.{Result, ok, err, enobufs}
use rte_demo.Mempool.Store.{Store, Laws}
use rte_demo.Mempool.Cache.{Cache, default_cache, Got}
use rte_demo.Mempool.Put.{Puts, generic_put_lem}
use rte_demo.Mempool.Get.{Gets, Fails, IsServed}
use rte_demo.Mempool.Refill.{generic_get_lem}
use rte_demo.Mempool.Types.{Pool, cache_at, put_back}
use rte_demo.Mempool.Api.{put_bulk, get_bulk}
use rte_demo.Mempool.Whole.{
  available, IsPool, InRange, default-InRange, put_back-weigh, put_back-IsPool, cache_at-Fit,
  reach_few,
}

module _ (store : Store) (laws : Laws store) where
  open laws use {IsGood, held, capacity}

  size_kept :
      (mp : Pool store) (at : Option ℕ) (s : store.Data) (cache : Option Cache)
      → (put_back mp at s cache).size ≡ mp.size
  size_kept mp none s cache = refl
  size_kept mp (some i) s none = refl
  size_kept mp (some i) s (some c) = refl

  module _ (mp : Pool store) (at : Option ℕ) (r : InRange store laws mp at) (n : ℕ) where
    put-weigh :
        (obj_table : List ℕ) (s : store.Data) (cache : Option Cache)
        → Puts store laws mp.pool_data (cache_at mp at) obj_table n (s, cache)
        → (f : ℕ → ℕ)
        → weigh f (available store laws (put_back mp at s cache))
          ≡ weigh f (available store laws mp) + weigh f (take n obj_table)
    put-weigh obj_table s cache puts f =
        omega (arith, put_back-weigh store laws f mp at s cache r puts.alike, puts.kept f)

    put-IsPool :
        (obj_table : List ℕ) (s : store.Data) (cache : Option Cache)
        → IsPool store laws mp
        → n ≤ length obj_table
        → length (available store laws mp) + n ≤ mp.size
        → Puts store laws mp.pool_data (cache_at mp at) obj_table n (s, cache)
        → IsPool store laws (put_back mp at s cache)
    put-IsPool obj_table s cache v given room puts =
        put_back-IsPool store laws mp at s cache v puts.good puts.fit puts.limit (
          omega (
            arith,
            put-weigh obj_table s cache puts (λ x. 1),
            length-weigh (available store laws (put_back mp at s cache)),
            length-weigh (available store laws mp),
            length-weigh (take n obj_table),
            length-take n obj_table,
          ))

    got-weigh :
        (g : Got store)
        → Gets store laws mp.pool_data (cache_at mp at) n g
        → (f : ℕ → ℕ)
        → weigh f (take n g.table) + weigh f (available store laws (put_back mp at g.data' g.cache))
          ≡ weigh f (available store laws mp)
    got-weigh g gets f =
        omega (arith, put_back-weigh store laws f mp at g.data' g.cache r gets.alike, gets.kept f)

    got-IsPool :
        (g : Got store)
        → IsPool store laws mp
        → Gets store laws mp.pool_data (cache_at mp at) n g
        → IsPool store laws (put_back mp at g.data' g.cache)
    got-IsPool g v gets =
        put_back-IsPool store laws mp at g.data' g.cache v gets.good gets.fit gets.limit (
          omega (
            arith,
            v.few,
            got-weigh g gets (λ x. 1),
            length-weigh (available store laws (put_back mp at g.data' g.cache)),
            length-weigh (available store laws mp),
          ))

    failed-weigh :
        (g : Got store)
        → Fails store laws mp.pool_data (cache_at mp at) g
        → (f : ℕ → ℕ)
        → weigh f (available store laws (put_back mp at g.data' g.cache))
          ≡ weigh f (available store laws mp)
    failed-weigh g fails f =
        omega (arith, put_back-weigh store laws f mp at g.data' g.cache r fails.alike, fails.kept f)

    failed-IsPool :
        (g : Got store)
        → IsPool store laws mp
        → Fails store laws mp.pool_data (cache_at mp at) g
        → IsPool store laws (put_back mp at g.data' g.cache)
    failed-IsPool g v fails =
        put_back-IsPool store laws mp at g.data' g.cache v fails.good fails.fit fails.limit (
          omega (
            arith,
            v.few,
            failed-weigh g fails (λ x. 1),
            length-weigh (available store laws (put_back mp at g.data' g.cache)),
            length-weigh (available store laws mp),
          ))

  -- A pool in order with room for the `n` objects of a put takes them, whatever core calls: the call
  -- ends, the pool is in order and of the same size, and the total weight of its free objects grows
  -- by that of the objects put, for every way to weigh objects.
  pub put_bulk_lem :
      (mp : Pool store) (obj_table : List ℕ) (n lcore_id : ℕ)
      → IsPool store laws mp
      → n ≤ length obj_table
      → length (available store laws mp) + n ≤ mp.size
      → (mp' : Pool store) × (put_bulk store mp obj_table n lcore_id ≡ some mp')
        × IsPool store laws mp'
        × (mp'.size ≡ mp.size)
        × ((f : ℕ → ℕ)
            → weigh f (available store laws mp')
              ≡ weigh f (available store laws mp) + weigh f (take n obj_table))
  unfolding put_bulk
  put_bulk_lem mp obj_table n lcore_id v given room =
      let at = default_cache mp.cache_size lcore_id in
      let r = default-InRange store laws mp lcore_id v in
      let ((s, cache), ran, puts) =
        generic_put_lem store laws mp.pool_data obj_table n v.good given (cache_at mp at)
          (cache_at-Fit store laws mp at v r)
          (omega (arith, room, v.room, reach_few store laws mp at r)) in
      (
        put_back mp at s cache,
        rw ran,
        put-IsPool mp at r n obj_table s cache v given room puts,
        size_kept mp at s cache,
        put-weigh mp at r n obj_table s cache puts,
      )

  -- A get of at least one object from a pool in order ends, whatever core calls, and leaves a pool
  -- in order and of the same size. If the store has the objects, or a cache larger than the request,
  -- it returns 0, and what is at the head of the table and what is free afterwards weigh together
  -- what was free before, for every way to weigh objects. If not, it returns -ENOBUFS and what is
  -- free weighs the same.
  pub get_bulk_lem :
      (mp : Pool store) (obj_table : List ℕ) (n lcore_id : ℕ)
      → IsPool store laws mp
      → n ≤ length obj_table
      → 0 < n
      → (ret : Result (Unit {0})) × (table : List ℕ) × (mp' : Pool store) × (get_bulk store mp
            obj_table n lcore_id
          ≡ some (ret, table, mp'))
        × IsPool store laws mp'
        × (mp'.size ≡ mp.size)
        × ((IsServed store laws mp.pool_data (cache_at mp (default_cache mp.cache_size lcore_id)) n
              × (ret ≡ ok tt)
              × (n ≤ length table)
              × ((f : ℕ → ℕ)
                  → weigh f (take n table) + weigh f (available store laws mp')
                    ≡ weigh f (available store laws mp)))
            ⊎ (¬ IsServed store laws mp.pool_data
                  (cache_at mp (default_cache mp.cache_size lcore_id))
                  n
                × (ret ≡ err enobufs)
                × ((f : ℕ → ℕ)
                    → weigh f (available store laws mp') ≡ weigh f (available store laws mp))))
  unfolding get_bulk
  get_bulk_lem mp obj_table n lcore_id v given some_asked =
      let at = default_cache mp.cache_size lcore_id in
      let r = default-InRange store laws mp lcore_id v in
      let (g, ran, outcome) =
        generic_get_lem store laws mp.pool_data obj_table n v.good given some_asked (cache_at mp at)
          (cache_at-Fit store laws mp at v r) in
      let mp' = put_back mp at g.data' g.cache in
      elim outcome [
        | inl (served, e, gets) ↦ (
          g.ret,
          g.table,
          mp',
          rw ran,
          got-IsPool mp at r n g v gets,
          size_kept mp at g.data' g.cache,
          inl (served, e, gets.table, got-weigh mp at r n g gets),
        )
        | inr (lacks, e, fails) ↦ (
          g.ret,
          g.table,
          mp',
          rw ran,
          failed-IsPool mp at r n g v fails,
          size_kept mp at g.data' g.cache,
          inr (lacks, e, failed-weigh mp at r n g fails),
        )
      ]
