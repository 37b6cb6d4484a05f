-- ===== src/Mempool/Whole.antt =====
-- The invariant of a pool, and the objects that are free in it.
use rte_demo.Prelude.{
  ℕ, zero, suc, ◌+◌, ◌^◌, ◌≤◌, ◌<◌, ◌≡◌, ap, ◌∙◌, ◌⊎◌, inl, inr, arith, List, [], ◌∷◌, ◌++◌, length,
  get_or, set, Option, none, some, leb, ◌==◌, Bool-cases, false, weigh, weigh-append, length-weigh,
  length-set,
}
use rte_demo.Mempool.Store.{Store, Laws}
use rte_demo.Mempool.Cache.{max_lcore, Cache, default_cache}
use rte_demo.Mempool.Splice.{IsFit, Fit, has_cache, cached}
use rte_demo.Mempool.Put.{within_reach}
use rte_demo.Mempool.Types.{Pool, no_cache, cache_at, put_back}

abbrev pub all_cached : List Cache → List ℕ
all_cached [] = []
all_cached (c ∷ cs) = cached c ++ all_cached cs

abbrev pub AllFit : List Cache → Type 0
AllFit [] = Unit
AllFit (c ∷ cs) = IsFit c × AllFit cs

-- An entry of the array of caches, and a change of one.
entry-IsFit : (cs : List Cache) (i : ℕ) → AllFit cs → i < length cs → IsFit (get_or cs i no_cache)
entry-IsFit [] i v h = elim h [ ]
entry-IsFit (c ∷ cs) zero v h = v.0
entry-IsFit (c ∷ cs) (suc i) v h = entry-IsFit cs i v.1 (omega arith)

set-AllFit : (cs : List Cache) (i : ℕ) (c : Cache) → AllFit cs → IsFit c → AllFit (set cs i c)
set-AllFit [] i c v w = v
set-AllFit (x ∷ cs) zero c v w = (w, v.1)
set-AllFit (x ∷ cs) (suc i) c v w = (v.0, set-AllFit cs i c v.1 w)

weigh-set :
    (f : ℕ → ℕ) (cs : List Cache) (i : ℕ) (c : Cache)
    → i < length cs
    → weigh f (all_cached (set cs i c)) + weigh f (cached (get_or cs i no_cache))
      ≡ weigh f (all_cached cs) + weigh f (cached c)
weigh-set f [] i c h = elim h [ ]
weigh-set f (x ∷ cs) zero c h =
    omega
      (arith, weigh-append f (cached c) (all_cached cs), weigh-append f (cached x) (all_cached cs))
weigh-set f (x ∷ cs) (suc i) c h = omega (
  arith,
  weigh-append f (cached x) (all_cached (set cs i c)),
  weigh-append f (cached x) (all_cached cs),
  weigh-set f cs i c (omega arith),
)

module _ (store : Store) (laws : Laws store) where
  open laws use {IsGood, held, capacity}

  -- The free objects: those in the store and those in the caches.
  abbrev pub available : Pool store → List ℕ
  available mp = held mp.pool_data ++ all_cached mp.local_cache

  pub record IsPool (mp : Pool store) : Type 0 where
    pub good : IsGood mp.pool_data
    pub fit : AllFit mp.local_cache
    pub many :
        ((mp.cache_size ≡ 0) × (mp.local_cache ≡ []))
        ⊎ ((0 < mp.cache_size) × (length mp.local_cache ≡ max_lcore))
    pub room : mp.size ≤ capacity mp.pool_data
    pub few : length (available mp) ≤ mp.size
    pub word : mp.size < 2 ^ 32

  -- The index of a cache, where there is one, is one of the array.
  abbrev pub InRange : Pool store → Option ℕ → Type 0
  InRange mp none = Unit
  InRange mp (some i) = i < length mp.local_cache

  pub default-InRange :
      (mp : Pool store) (lcore_id : ℕ)
      → IsPool mp
      → InRange mp (default_cache mp.cache_size lcore_id)
  unfolding default_cache
  default-InRange mp lcore_id v = elim v.many [
    | inl (off, e) ↦ rw (off) tt
    | inr (on, e) ↦ elim (Bool-cases (leb max_lcore lcore_id)) [
      | inl h ↦ rw (set_up on, h) tt
      | inr h ↦ rw (set_up on, h) (ground (arith, e))
    ]
  ]
    where
      set_up : 0 < mp.cache_size → (mp.cache_size == 0) ≡ false
      set_up on = ground arith

  -- What is available changes as what the core can reach does.
  pub put_back-weigh :
      (f : ℕ → ℕ) (mp : Pool store) (at : Option ℕ) (s : store.Data) (cache : Option Cache)
      → InRange mp at
      → has_cache cache ≡ has_cache (cache_at mp at)
      → weigh f (available (put_back mp at s cache))
          + weigh f (within_reach store laws mp.pool_data (cache_at mp at))
        ≡ weigh f (available mp) + weigh f (within_reach store laws s cache)
  put_back-weigh f mp none s none r a = omega (
    arith,
    weigh-append f (held s) (all_cached mp.local_cache),
    weigh-append f (held mp.pool_data) (all_cached mp.local_cache),
  )
  put_back-weigh f mp none s (some c) r a = absurd (ground (arith, a))
  put_back-weigh f mp (some i) s none r a = absurd (ground (arith, a))
  put_back-weigh f mp (some i) s (some c) r a = omega (
    arith,
    weigh-append f (held s) (all_cached (set mp.local_cache i c)),
    weigh-append f (held mp.pool_data) (all_cached mp.local_cache),
    weigh-append f (held s) (cached c),
    weigh-append f (held mp.pool_data) (cached (get_or mp.local_cache i no_cache)),
    weigh-set f mp.local_cache i c r,
  )

  -- A change of the store and of one cache keeps the pool as it should be, if the free objects do
  -- not become too many.
  pub put_back-IsPool :
      (mp : Pool store) (at : Option ℕ) (s : store.Data) (cache : Option Cache)
      → IsPool mp
      → IsGood s
      → Fit cache
      → capacity s ≡ capacity mp.pool_data
      → length (available (put_back mp at s cache)) ≤ mp.size
      → IsPool (put_back mp at s cache)
  put_back-IsPool mp none s cache v g fit limit few = record {
    good = g;
    fit = v.fit;
    many = v.many;
    room = rw limit v.room;
    few = few;
    word = v.word;
  }
  put_back-IsPool mp (some i) s none v g fit limit few = record {
    good = g;
    fit = v.fit;
    many = v.many;
    room = rw limit v.room;
    few = few;
    word = v.word;
  }
  put_back-IsPool mp (some i) s (some c) v g fit limit few = record {
    good = g;
    fit = set-AllFit mp.local_cache i c v.fit fit;
    many = elim v.many [
      | inl (off, e) ↦ inl (off, ap (λ (t : List Cache). set t i c) e)
      | inr (on, e) ↦ inr (on, length-set mp.local_cache i c ∙ e)
    ];
    room = rw limit v.room;
    few = few;
    word = v.word;
  }

  -- The cache that a call finds is in order.
  pub cache_at-Fit :
      (mp : Pool store) (at : Option ℕ) → IsPool mp → InRange mp at → Fit (cache_at mp at)
  cache_at-Fit mp none v r = tt
  cache_at-Fit mp (some i) v r = entry-IsFit mp.local_cache i v.fit r

  -- What a core can reach is part of what is available.
  pub reach-available :
      (f : ℕ → ℕ) (mp : Pool store) (at : Option ℕ)
      → InRange mp at
      → weigh f (within_reach store laws mp.pool_data (cache_at mp at)) ≤ weigh f (available mp)
  reach-available f mp none r =
      omega (arith, weigh-append f (held mp.pool_data) (all_cached mp.local_cache))
  reach-available f mp (some i) r = omega (
    arith,
    weigh-append f (held mp.pool_data) (cached (get_or mp.local_cache i no_cache)),
    weigh-append f (held mp.pool_data) (all_cached mp.local_cache),
    weigh-set f mp.local_cache i no_cache r,
  )

  pub reach_few :
      (mp : Pool store) (at : Option ℕ)
      → InRange mp at
      → length (within_reach store laws mp.pool_data (cache_at mp at)) ≤ length (available mp)
  reach_few mp at r = omega (
    arith,
    reach-available (λ x. 1) mp at r,
    length-weigh (within_reach store laws mp.pool_data (cache_at mp at)),
    length-weigh (available mp),
  )
