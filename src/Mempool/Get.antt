-- ===== src/Mempool/Get.antt =====
-- A get loses no object and makes none up, and tells when it fails.
use rte_demo.Prelude.{
  ℕ, ◌+◌, ◌-◌, ◌*◌, ◌≤◌, ◌<◌, ◌≡◌, refl, ap, ◌⊎◌, inl, inr, arith, List, [], length, take, drop,
  Option, none, some, leb, Bool-cases, weigh, weigh-append, weigh-take-drop, take-append_self,
  length-append,
}
use rte_demo.Word.{sub32}
use rte_demo.Ring.Types.{ok, err, enobufs}
use rte_demo.Mempool.Store.{Store, Laws, status}
use rte_demo.Mempool.Cache.{cache_max_size, Cache, pop_objs, Got, ring_dequeue, fill}
use rte_demo.Mempool.Splice.{IsFit, Fit, has_cache, cached, pop_objs-weigh, length-pop_objs}
use rte_demo.Mempool.Put.{within_reach}

module _ (store : Store) (laws : Laws store) where
  open laws use {IsGood, held, capacity, dequeue_enough, dequeue_short}

  -- What a get of `n` objects leaves where it returns 0.
  pub record Gets (s : store.Data) (cache : Option Cache) (n : ℕ) (g : Got store) : Type 0 where
    pub good : IsGood g.data'
    pub fit : Fit g.cache
    pub alike : has_cache g.cache ≡ has_cache cache
    pub limit : capacity g.data' ≡ capacity s
    pub table : n ≤ length g.table
    pub kept :
        (f : ℕ → ℕ)
        → weigh f (take n g.table) + weigh f (within_reach store laws g.data' g.cache)
          ≡ weigh f (within_reach store laws s cache)

  -- What it leaves where it fails.
  pub record Fails (s : store.Data) (cache : Option Cache) (g : Got store) : Type 0 where
    pub good : IsGood g.data'
    pub fit : Fit g.cache
    pub alike : has_cache g.cache ≡ has_cache cache
    pub limit : capacity g.data' ≡ capacity s
    pub kept :
        (f : ℕ → ℕ)
        → weigh f (within_reach store laws g.data' g.cache)
          ≡ weigh f (within_reach store laws s cache)

  -- The objects in the cache, if there is one.
  abbrev cached? : Option Cache → List ℕ
  cached? none = []
  cached? (some c) = cached c

  weigh-reach :
      (f : ℕ → ℕ) (s : store.Data) (cache : Option Cache)
      → weigh f (within_reach store laws s cache) ≡ weigh f (held s) + weigh f (cached? cache)
  weigh-reach f s none = omega arith
  weigh-reach f s (some c) = weigh-append f (held s) (cached c)

  pub ok-status : (n : ℕ) → 0 < n → status n ≡ ok tt
  ok-status n h = ground arith

  -- A run that returns 0.
  abbrev Succeeds : store.Data → Option Cache → ℕ → Option (Got store) → Type 0
  Succeeds s cache n call = (g : Got store) × (call ≡ some g) × (g.ret ≡ ok tt) × Gets s cache n g

  module _ (s : store.Data) (obj_table : List ℕ) (n : ℕ) (good : IsGood s)
      (given : n ≤ length obj_table) (some_asked : 0 < n) where
    -- Straight from the store.
    pub direct-Gets :
        (cache : Option Cache)
        → Fit cache
        → n ≤ length (held s)
        → Succeeds s cache n (ring_dequeue store s obj_table n cache)
    unfolding ring_dequeue
    direct-Gets cache v enough =
        let (out, s', ran, g, t, l, e, c) = dequeue_enough s obj_table n good given enough in
        (
          record { ret = status n; table = out; data' = s'; cache = cache },
          rw ran,
          ok-status n some_asked,
          record {
            good = g;
            fit = v;
            alike = refl;
            limit = c;
            table = omega arith;
            kept = λ f. omega (
              arith,
              weigh-reach f s' cache,
              weigh-reach f s cache,
              ap (weigh f) t,
              ap (weigh f) e,
              weigh-take-drop f n (held s),
            );
          },
        )

    pub direct-Fails :
        (cache : Option Cache)
        → Fit cache
        → length (held s) < n
        → (g : Got store) × (ring_dequeue store s obj_table n cache ≡ some g)
          × (g.ret ≡ err enobufs)
          × Fails s cache g
    unfolding ring_dequeue
    direct-Fails cache v short =
        let (out, s', ran, g, l, e, c) = dequeue_short s obj_table n good given short in
        (
          record { ret = err enobufs; table = out; data' = s'; cache = cache },
          rw ran,
          refl,
          record {
            good = g;
            fit = v;
            alike = refl;
            limit = c;
            kept =
                λ f. omega (arith, weigh-reach f s' cache, weigh-reach f s cache, ap (weigh f) e);
          },
        )

  -- From a cache that has enough.
  module _ (s : store.Data) (obj_table : List ℕ) (n : ℕ) (good : IsGood s)
      (given : n ≤ length obj_table) where
    pub fill-Gets :
        (c : Cache)
        → IsFit (record c { len = 0 })
        → n ≤ c.len
        → c.len ≤ 3 * cache_max_size
        → c.len - n ≤ c.flushthresh
        → Gets s (some c) n (fill store s obj_table n c)
    fill-Gets c v enough big low = record {
      good = good;
      fit = record {
        small = v.small;
        threshold = v.threshold;
        bounded = v.bounded;
        below = rw taken low;
        array = v.array;
      };
      alike = refl;
      limit = refl;
      table = omega (
        arith,
        length-append (pop_objs n (c.len - 1) c.objs) (drop n obj_table),
        length-pop_objs n (c.len - 1) c.objs,
      );
      kept = λ f.
          rw
            (
              taken,
              take-append_self (pop_objs n (c.len - 1) c.objs) (drop n obj_table) n
                  (length-pop_objs n (c.len - 1) c.objs),
            )
            (omega (
              arith,
              weigh-append f (held s) (take (c.len - n) c.objs),
              weigh-append f (held s) (cached c),
              pop_objs-weigh f n c.len c.objs enough (omega (arith, v.array)),
            ));
    }
      where
        taken : sub32 c.len n ≡ c.len - n
        taken = omega (arith, enough, big)

  -- Whether a get of `n` objects has enough: the store has them, or the cache that is asked.
  abbrev pub IsServed : store.Data → Option Cache → ℕ → Type 0
  IsServed s none n = n ≤ length (held s)
  IsServed s (some c) n = (n ≤ length (held s)) ⊎ ((n < c.size) × (n ≤ c.len))

  -- What a get does, in either case.
  abbrev pub Outcome : store.Data → Option Cache → ℕ → Got store → Type 0
  Outcome s cache n g =
      (IsServed s cache n × (g.ret ≡ ok tt) × Gets s cache n g)
      ⊎ (¬ IsServed s cache n × (g.ret ≡ err enobufs) × Fails s cache g)

  abbrev pub Ends : store.Data → Option Cache → ℕ → Option (Got store) → Type 0
  Ends s cache n call = (g : Got store) × (call ≡ some g) × Outcome s cache n g

  module _ (s : store.Data) (obj_table : List ℕ) (n : ℕ) (good : IsGood s)
      (given : n ≤ length obj_table) (some_asked : 0 < n) where
    -- Straight from the store, where the cache alone does not have enough.
    pub direct-Ends :
        (c : Cache)
        → IsFit c
        → ¬ ((n < c.size) × (n ≤ c.len))
        → Ends s (some c) n (ring_dequeue store s obj_table n (some c))
    direct-Ends c v lacks = elim (Bool-cases (leb n (length (held s)))) [
      | inl e ↦
          let (g, ran, r, gets) =
            direct-Gets s obj_table n good given some_asked (some c) v (ground arith) in
          (g, ran, inl (inl (ground arith), r, gets))
      | inr e ↦
          let (g, ran, r, fails) =
            direct-Fails s obj_table n good given some_asked (some c) v (ground arith) in
          (
            g,
            ran,
            inr (
              λ p. elim p [ inl h ↦ absurd (ground arith) | inr h ↦ absurd (lacks h) ],
              r,
              fails,
            ),
          )
    ]
