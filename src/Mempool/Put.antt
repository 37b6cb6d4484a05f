-- ===== src/Mempool/Put.antt =====
-- A put loses no object and makes none up, whatever way it takes.
use rte_demo.Prelude.{
  ℕ, ◌+◌, ◌-◌, ◌*◌, ◌≤◌, ◌≡◌, refl, ap, ◌∙◌, inl, inr, arith, List, ◌++◌, length, take, drop,
  Option, none, some, leb, ltb, Bool-cases, true, false, weigh, weigh-append, weigh-take_add,
  length-take, length-drop, length-append,
}
use rte_demo.Word.{add32, sub32}
use rte_demo.Mempool.Store.{Store, Laws}
use rte_demo.Mempool.Cache.{cache_max_size, Cache, splice, ring_enqueue, cached_put, generic_put}
use rte_demo.Mempool.Splice.{IsFit, Fit, has_cache, cached, length-splice, weigh-splice}

module _ (store : Store) (laws : Laws store) where
  open laws use {IsGood, held, capacity, enqueue_room, dequeue_enough, dequeue_short}

  -- The objects that a core with this cache can reach.
  abbrev pub within_reach : store.Data → Option Cache → List ℕ
  within_reach s none = held s
  within_reach s (some c) = held s ++ cached c

  -- What a put of the first `n` objects of the table leaves.
  pub record Puts (s : store.Data) (cache : Option Cache) (obj_table : List ℕ) (n : ℕ)
      (out : store.Data × Option Cache) : Type 0 where
    pub good : IsGood out.0
    pub fit : Fit out.1
    pub alike : has_cache out.1 ≡ has_cache cache
    pub limit : capacity out.0 ≡ capacity s
    pub kept :
        (f : ℕ → ℕ)
        → weigh f (within_reach out.0 out.1)
          ≡ weigh f (within_reach s cache) + weigh f (take n obj_table)

  module _ (s : store.Data) (obj_table : List ℕ) (n : ℕ) (good : IsGood s)
      (given : n ≤ length obj_table) where
    flush_run :
        (objs : List ℕ) (k : ℕ)
        → k ≤ length objs
        → length (held s) + k ≤ capacity s
        → (s' : store.Data) × (ring_enqueue store s objs k ≡ some s')
          × IsGood s'
          × (held s' ≡ held s ++ take k objs)
          × (capacity s' ≡ capacity s)
    unfolding ring_enqueue
    flush_run objs k h room =
        let (s', ran, g, e, c) = enqueue_room s objs k good h room in (s', rw ran, g, e, c)

    -- The cache behind the copy, before a flush.
    module _ (c : Cache) (v : IsFit c) (small : n ≤ cache_max_size) where
      abbrev objs' : List ℕ
      objs' = splice c.objs c.len obj_table n

      added : add32 c.len n ≡ c.len + n
      added = omega (arith, v.below, v.bounded)

      length-objs' : length objs' ≡ 3 * cache_max_size
      length-objs' =
          length-splice c.objs c.len obj_table n (omega (arith, v.below, v.bounded, v.array)) given
            (omega (arith, v.below, v.bounded, v.array))
          ∙ v.array

      weigh-objs' :
          (f : ℕ → ℕ)
          → weigh f (take (c.len + n) objs') ≡ weigh f (cached c) + weigh f (take n obj_table)
      weigh-objs' =
          weigh-splice c.objs c.len obj_table n (omega (arith, v.below, v.bounded, v.array)) given

      stay-Puts :
          leb c.flushthresh (c.len + n) ≡ false
          → Puts s (some c) obj_table n (s, some (record c { objs = objs'; len = c.len + n }))
      stay-Puts e = record {
        good = good;
        fit = record {
          small = v.small;
          threshold = v.threshold;
          bounded = v.bounded;
          below = ground arith;
          array = length-objs';
        };
        alike = refl;
        limit = refl;
        kept = λ f. omega (
          arith,
          weigh-append f (held s) (take (c.len + n) objs'),
          weigh-append f (held s) (cached c),
          weigh-objs' f,
        );
      }

      module _ (over : leb c.flushthresh (c.len + n) ≡ true)
          (room : length (held s) + (c.len + n) ≤ capacity s) where
        surplus : ℕ
        surplus = c.len + n - c.size

        surplus_value : sub32 (c.len + n) c.size ≡ c.len + n - c.size
        surplus_value = ground (arith, v.threshold, v.bounded, v.below)

        flushed :
            (s' : store.Data) × (ring_enqueue store s (drop c.size objs') (c.len + n - c.size)
              ≡ some s')
            × IsGood s'
            × (held s' ≡ held s ++ take (c.len + n - c.size) (drop c.size objs'))
            × (capacity s' ≡ capacity s)
        flushed =
            flush_run (drop c.size objs') (c.len + n - c.size)
              (omega (arith, length-drop c.size objs', length-objs', v.below, v.bounded))
              (omega (arith, room))

        flush-Puts :
            Puts s (some c) obj_table n (flushed.0, some (record c { objs = objs'; len = c.size }))
        flush-Puts = record {
          good = flushed.2;
          fit = record {
            small = v.small;
            threshold = v.threshold;
            bounded = v.bounded;
            below = v.threshold;
            array = length-objs';
          };
          alike = refl;
          limit = flushed.4;
          kept = λ f. omega (
            arith,
            weigh-append f (held flushed.0) (take c.size objs'),
            ap (weigh f) flushed.3,
            weigh-append f (held s) (take (c.len + n - c.size) (drop c.size objs')),
            weigh-append f (held s) (cached c),
            weigh-objs' f,
            weigh-take_add f c.size (c.len + n - c.size) objs',
            ap (λ (t : ℕ). weigh f (take t objs')) whole,
          );
        }
          where
            whole : c.size + (c.len + n - c.size) ≡ c.len + n
            whole = ground (arith, v.threshold)

    cached_put-Puts :
        (c : Cache)
        → IsFit c
        → n ≤ cache_max_size
        → length (held s) + (c.len + n) ≤ capacity s
        → (out : store.Data × Cache) × (cached_put store s obj_table n c ≡ some out)
          × Puts s (some c) obj_table n (out.0, some out.1)
    unfolding cached_put
    cached_put-Puts c v small room = elim (Bool-cases (leb c.flushthresh (c.len + n))) [
      | inr e ↦ (
        (s, record c { objs = splice c.objs c.len obj_table n; len = c.len + n }),
        rw (added c v small, e),
        stay-Puts c v small e,
      )
      | inl e ↦ (
        (
          (flushed c v small e room).0,
          record c { objs = splice c.objs c.len obj_table n; len = c.size },
        ),
        rw (added c v small, e, surplus_value c v small e room, (flushed c v small e room).1),
        flush-Puts c v small e room,
      )
    ]

    -- A put whose objects the store can take, with or without a cache, ends; the objects that can be
    -- reached ffterwards are those from before and those that were put.
    pub generic_put_lem :
        (cache : Option Cache)
        → Fit cache
        → length (within_reach s cache) + n ≤ capacity s
        → (out : store.Data × Option Cache) × (generic_put store s obj_table n cache ≡ some out)
          × Puts s cache obj_table n out
    unfolding generic_put
    generic_put_lem none v room =
        let (s', ran, g, e, l) = flush_run obj_table n given room in
        (
          (s', none),
          rw ran,
          record {
            good = g;
            fit = tt;
            alike = refl;
            limit = l;
            kept = λ f. rw e (weigh-append f (held s) (take n obj_table));
          },
        )
    generic_put_lem (some c) v room =
        let size : length (within_reach s (some c)) ≡ length (held s) + c.len = omega (
          arith,
          length-append (held s) (cached c),
          length-take c.len c.objs,
          v.below,
          v.bounded,
          v.array,
        ) in
        elim (Bool-cases (ltb cache_max_size n)) [
          | inr e ↦
              let (out, ran, puts) = cached_put-Puts c v (ground arith) (omega (arith, size)) in
              ((out.0, some out.1), rw (e, ran), puts)
          | inl e ↦
              let (s', ran, g, eq, l) = flush_run obj_table n given (omega (arith, size)) in
              (
                (s', some c),
                rw (e, ran),
                record {
                  good = g;
                  fit = v;
                  alike = refl;
                  limit = l;
                  kept = λ f. omega (
                    arith,
                    weigh-append f (held s') (cached c),
                    weigh-append f (held s) (cached c),
                    ap (weigh f) eq,
                    weigh-append f (held s) (take n obj_table),
                  );
                },
              )
        ]
