-- ===== src/Mempool/Refill.antt =====
-- A get from a cache that has too little for it, and a get as a whole.
use rte_demo.Prelude.{
  ℕ, ◌+◌, ◌-◌, ◌*◌, ◌≤◌, ◌<◌, ◌≡◌, refl, ap, ◌∙◌, inl, inr, arith, List, ◌++◌, length, take, drop,
  Option, none, some, leb, ltb, Bool-cases, true, false, weigh, weigh-append, weigh-take-drop,
  take-append_of_length, take-append_self, length-take, length-drop, length-append,
}
use rte_demo.Word.{add32, sub32}
use rte_demo.Mempool.Store.{Store, Laws}
use rte_demo.Mempool.Cache.{cache_max_size, Cache, Got, fill, cached_get, generic_get}
use rte_demo.Mempool.Splice.{IsFit, Fit, cached}
use rte_demo.Mempool.Put.{within_reach}
use rte_demo.Mempool.Get.{
  Gets, Outcome, Ends, fill-Gets, ok-status, direct-Ends, direct-Gets, direct-Fails,
}

module _ (store : Store) (laws : Laws store) where
  open laws use {IsGood, held, capacity, dequeue_enough, dequeue_short}

  module _ (s : store.Data) (obj_table : List ℕ) (n : ℕ) (good : IsGood s)
      (given : n ≤ length obj_table) (some_asked : 0 < n) where
    -- The cache asks the store for what it lacks and enough to be full afterwards.
    module _ (c : Cache) (v : IsFit c) (served : n < c.size) (lacking : c.len < n) where
      abbrev req : ℕ
      req = n + (c.size - c.len)

      asked : add32 n (sub32 c.size c.len) ≡ n + (c.size - c.len)
      asked = ground (arith, v.small)

      -- The cache with `out` behind its objects.
      abbrev refilled : List ℕ → Cache
      refilled out = record c { objs = take c.len c.objs ++ out }

      room : n + (c.size - c.len) ≤ length (drop c.len c.objs)
      room = ground (arith, v.small, v.array, length-drop c.len c.objs)

      length-start : length (take c.len c.objs) ≡ c.len
      length-start = omega (arith, length-take c.len c.objs, v.small, v.array)

      length-refilled :
          (out : List ℕ)
          → length out ≡ length (drop c.len c.objs)
          → length (take c.len c.objs ++ out) ≡ 3 * cache_max_size
      length-refilled out e = omega (
        arith,
        length-append (take c.len c.objs) out,
        length-start,
        e,
        length-drop c.len c.objs,
        v.small,
        v.array,
      )

      full : add32 c.len req ≡ n + c.size
      full = ground (arith, v.small)

      refill-Gets :
          (out : List ℕ) (s' : store.Data)
          → length out ≡ length (drop c.len c.objs)
          → IsGood s'
          → take req out ≡ take req (held s)
          → held s' ≡ drop req (held s)
          → capacity s' ≡ capacity s
          → Gets store laws s
              (some c)
              n
              (fill store s' obj_table n (record (refilled out) { len = n + c.size }))
      refill-Gets out s' e g same rest limit =
          let gets =
            fill-Gets store laws s' obj_table n g given (record (refilled out) { len = n + c.size })
              (record {
                small = v.small;
                threshold = v.threshold;
                bounded = v.bounded;
                below = omega arith;
                array = length-refilled out e;
              })
              (omega arith) (omega (arith, v.small)) (omega (arith, v.threshold)) in
          record {
            good = gets.good;
            fit = gets.fit;
            alike = gets.alike;
            limit = gets.limit ∙ limit;
            table = gets.table;
            kept = λ f. gets.kept f ∙ reached f;
          }
        where
          sum : c.len + req ≡ n + c.size
          sum = ground arith

          contents :
              take (n + c.size) (take c.len c.objs ++ out) ≡ take c.len c.objs ++ take req out
          contents =
              rw (← sum) (take-append_of_length (take c.len c.objs) out c.len req length-start)

          reached :
              (f : ℕ → ℕ)
              → weigh f
                  (within_reach store laws s' (some (record (refilled out) { len = n + c.size })))
                ≡ weigh f (within_reach store laws s (some c))
          reached f = omega (
            arith,
            weigh-append f (held s') (take (n + c.size) (take c.len c.objs ++ out)),
            ap (weigh f) contents,
            weigh-append f (take c.len c.objs) (take req out),
            weigh-append f (held s) (cached c),
            ap (weigh f) same,
            ap (weigh f) rest,
            weigh-take-drop f req (held s),
          )

      -- The cache is as before where the store has too little.
      same-cached : (out : List ℕ) → cached (refilled out) ≡ cached c
      same-cached out = take-append_self (take c.len c.objs) out c.len length-start

      refused-Outcome :
          (out : List ℕ) (s' : store.Data)
          → length out ≡ length (drop c.len c.objs)
          → held s' ≡ held s
          → capacity s' ≡ capacity s
          → (g : Got store) → Outcome store laws s' (some (refilled out)) n g
          → Outcome store laws s (some c) n g
      refused-Outcome out s' e same limit g (inl (p, r, gets)) = inl (
        elim p [ inl h ↦ inl (rw (← same) h) | inr h ↦ inr h ],
        r,
        record {
          good = gets.good;
          fit = gets.fit;
          alike = gets.alike;
          limit = gets.limit ∙ limit;
          table = gets.table;
          kept = λ f. gets.kept f ∙ rw (same, same-cached out);
        },
      )
      refused-Outcome out s' e same limit g (inr (p, r, fails)) = inr (
        λ q. p (elim q [ inl h ↦ inl (rw same h) | inr h ↦ inr h ]),
        r,
        record {
          good = fails.good;
          fit = fails.fit;
          alike = fails.alike;
          limit = fails.limit ∙ limit;
          kept = λ f. fails.kept f ∙ rw (same, same-cached out);
        },
      )

      lacks : ltb c.len n ≡ true
      lacks = ground arith

      fit : (out : List ℕ) → length out ≡ length (drop c.len c.objs) → IsFit (refilled out)
      fit out l = record {
        small = v.small;
        threshold = v.threshold;
        bounded = v.bounded;
        below = v.below;
        array = length-refilled out l;
      }

      -- Goes on as the code does, with the dequeue's outcome.
      refill-Ends : Ends store laws s (some c) n (cached_get store s obj_table n c)
      unfolding cached_get
      refill-Ends = elim (Bool-cases (leb req (length (held s)))) [
        | inl e ↦
            let (out, s', ran, g, same, l, rest, limit) =
              dequeue_enough s (drop c.len c.objs) req good room (ground arith) in
            (
              fill store s' obj_table n (record (refilled out) { len = n + c.size }),
              rw (lacks, asked, ran, ok-status store laws req (omega arith), full),
              inl (inl (ground arith), refl, refill-Gets out s' l g same rest limit),
            )
        | inr e ↦
            let (out, s', ran, g, l, same, limit) =
              dequeue_short s (drop c.len c.objs) req good room (ground arith) in
            let (got, direct, outcome) =
              direct-Ends store laws s' obj_table n g given some_asked (refilled out) (fit out l)
                (λ p. absurd (omega (arith, p.1))) in
            (got, rw (lacks, asked, ran) direct, refused-Outcome out s' l same limit got outcome)
      ]

    served_run :
        (c : Cache)
        → ltb c.len n ≡ false
        → cached_get store s obj_table n c ≡ some (fill store s obj_table n c)
    unfolding cached_get
    served_run c f = rw f

    -- A get of at least one object ends. It returns 0 when the store has the objects asked for, or a
    -- cache larger than the request has them; then the first `n` entries of the table and the objects
    -- that can be reached ffterwards are those that could be reached before. In all other cases it
    -- returns -ENOBUFS, and what can be reached is unchanged.
    pub generic_get_lem :
        (cache : Option Cache)
        → Fit cache
        → (g : Got store) × (generic_get store s obj_table n cache ≡ some g)
          × Outcome store laws s cache n g
    unfolding generic_get
    generic_get_lem none v = elim (Bool-cases (leb n (length (held s)))) [
      | inl e ↦
          let (g, ran, r, gets) =
            direct-Gets store laws s obj_table n good given some_asked none v (ground arith) in
          (g, ran, inl (ground arith, r, gets))
      | inr e ↦
          let (g, ran, r, fails) =
            direct-Fails store laws s obj_table n good given some_asked none v (ground arith) in
          (g, ran, inr (λ h. absurd (ground arith), r, fails))
    ]
    generic_get_lem (some c) v = elim (Bool-cases (leb c.size n)) [
      | inl e ↦
          let (g, ran, outcome) =
            direct-Ends store laws s obj_table n good given some_asked c v
              (λ p. absurd (ground arith)) in
          (g, rw e ran, outcome)
      | inr e ↦ elim (Bool-cases (ltb c.len n)) [
        | inl f ↦
            let (g, ran, outcome) = refill-Ends c v (ground arith) (ground arith) in
            (g, rw e ran, outcome)
        | inr f ↦ (
          fill store s obj_table n c,
          rw (e, served_run c f),
          inl (
            inr (ground arith, ground arith),
            refl,
            fill-Gets store laws s obj_table n good given c
                (record {
                  small = v.small;
                  threshold = v.threshold;
                  bounded = v.bounded;
                  below = omega arith;
                  array = v.array;
                })
                (ground arith) (omega (arith, v.below, v.bounded)) (omega (arith, v.below)),
          ),
        )
      ]
    ]
