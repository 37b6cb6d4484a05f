-- ===== src/Mempool/Counts.antt =====
-- The counts of a pool at rest, and its audit.
use rte_demo.Prelude.{
  ℕ, ◌+◌, ◌-◌, ◌^◌, ◌<◌, ◌≡◌, ◌↔◌, refl, ap, ◌∙◌, inl, inr, arith, List, [], ◌∷◌, ◌++◌, length,
  true, false, ltb, ◌==◌, ==_iff, length-append, length-take,
}
use rte_demo.Word.{add32}
use rte_demo.Mempool.Store.{Store, Laws}
use rte_demo.Mempool.Cache.{Cache}
use rte_demo.Mempool.Splice.{IsFit, cached}
use rte_demo.Mempool.Types.{Pool}
use rte_demo.Mempool.Api.{add_lens, avail_count, in_use_count, full, empty, audit_caches, audit}
use rte_demo.Mempool.Whole.{all_cached, AllFit, available, IsPool}
use rte_demo.Ring.Counts.{length-nil}

length-cached : (c : Cache) → IsFit c → length (cached c) ≡ c.len
length-cached c v = omega (arith, length-take c.len c.objs, v.below, v.bounded, v.array)

module _ (store : Store) (laws : Laws store) where
  open laws use {held, get_count_held}

  add_lens-all_cached :
      (count : ℕ) (cs : List Cache)
      → AllFit cs
      → count + length (all_cached cs) < 2 ^ 32
      → add_lens store count cs ≡ count + length (all_cached cs)
  unfolding add_lens
  add_lens-all_cached count [] v h = omega arith
  add_lens-all_cached count (c ∷ cs) v h =
      rw no_wrap
        (add_lens-all_cached (count + c.len) cs v.1 (omega (arith, split)) ∙ omega (arith, split))
    where
      split : length (cached c ++ all_cached cs) ≡ c.len + length (all_cached cs)
      split = omega (arith, length-append (cached c) (all_cached cs), length-cached c v.0)

      no_wrap : add32 count c.len ≡ count + c.len
      no_wrap = omega (arith, split)

  avail_count-available :
      (mp : Pool store)
      → IsPool store laws mp
      → avail_count store mp ≡ length (available store laws mp)
  unfolding avail_count
  avail_count-available mp v = elim v.many [
    | inl (off, e) ↦ rw (off) (omega (arith, sum, ap (λ (t : List Cache). length (all_cached t)) e))
    | inr (on, e) ↦ rw (set_up on, counted, fits) (omega (arith, sum))
  ]
    where
      sum :
          length (available store laws mp)
          ≡ store.get_count mp.pool_data + length (all_cached mp.local_cache)
      sum = omega (
        arith,
        length-append (held mp.pool_data) (all_cached mp.local_cache),
        get_count_held mp.pool_data v.good,
      )

      set_up : 0 < mp.cache_size → (mp.cache_size == 0) ≡ false
      set_up on = ground arith

      counted :
          add_lens store (store.get_count mp.pool_data) mp.local_cache
          ≡ store.get_count mp.pool_data + length (all_cached mp.local_cache)
      counted =
          add_lens-all_cached (store.get_count mp.pool_data) mp.local_cache v.fit
            (omega (arith, sum, v.few, v.word))

      fits : ltb mp.size (store.get_count mp.pool_data + length (all_cached mp.local_cache)) ≡ false
      fits = ground (arith, sum, v.few)

  audit_caches-AllFit : (cs : List Cache) → AllFit cs → audit_caches store cs ≡ true
  unfolding audit_caches
  audit_caches-AllFit [] v = refl
  audit_caches-AllFit (c ∷ cs) v = rw (low) (audit_caches-AllFit cs v.1)
    where
      low : ltb c.flushthresh c.len ≡ false
      low = ground (arith, v.0.below)

  -- On a pool in order that no call is at work on, `rte_mempool_avail_count` gives the number of its
  -- free objects, `rte_mempool_in_use_count` that of the others, `rte_mempool_full` and
  -- `rte_mempool_empty` tell whether all objects are free and whether none is, and the audit of the
  -- caches does not panic.
  pub pool_counts_lem :
      (mp : Pool store)
      → IsPool store laws mp
      → (avail_count store mp ≡ length (available store laws mp))
        × (in_use_count store mp ≡ mp.size - length (available store laws mp))
        × ((full store mp ≡ true) ↔ (length (available store laws mp) ≡ mp.size))
        × ((empty store mp ≡ true) ↔ (available store laws mp ≡ []))
        × (audit store mp ≡ true)
  unfolding in_use_count full empty audit
  pool_counts_lem mp v =
      let count = avail_count-available mp v in
      (
        count,
        rw count (omega (arith, v.few, v.word)),
        (
          λ e. omega (arith, (==_iff (avail_count store mp) mp.size).0 e, count),
          λ e. (==_iff (avail_count store mp) mp.size).1 (count ∙ e),
        ),
        (
          λ e.
              length-nil (available store laws mp)
                (omega (arith, (==_iff (avail_count store mp) 0).0 e, count)),
          λ e. (==_iff (avail_count store mp) 0).1 (omega (arith, count, ap length e)),
        ),
        rw (audit_caches-AllFit mp.local_cache v.fit) (ground arith),
      )
