-- ===== src/Mempool/Splice.antt =====
-- Copies into the array of a cache, and the loop that empties it.
use rte_demo.Prelude.{
  ℕ, zero, suc, ◌+◌, ◌-◌, ◌*◌, ◌≤◌, ◌≡◌, refl, ap, ◌∙◌, arith, List, ◌++◌, length, take, drop,
  Option, none, some, Bool, true, false, weigh, weigh-append, weigh-take-suc, take-append_of_length,
  take-append_self, length-take, length-drop, length-append,
}
use rte_demo.Mempool.Cache.{cache_max_size, Cache, splice, pop_objs}

-- What `mempool_cache_init` sets up and every put and get keeps.
pub record IsFit (c : Cache) : Type 0 where
  pub small : c.size ≤ cache_max_size
  pub threshold : c.size ≤ c.flushthresh
  pub bounded : c.flushthresh ≤ 2 * cache_max_size
  pub below : c.len ≤ c.flushthresh
  pub array : length c.objs ≡ 3 * cache_max_size

-- The objects in the cache.
abbrev pub cached : Cache → List ℕ
cached c = take c.len c.objs

abbrev pub Fit : Option Cache → Type 0
Fit none = Unit
Fit (some c) = IsFit c

abbrev pub has_cache : Option Cache → Bool
has_cache none = false
has_cache (some c) = true

-- A copy of `n` objects behind the first `at` ones.
module _ (objs : List ℕ) (at : ℕ) (table : List ℕ) (n : ℕ) (room : at ≤ length objs)
    (given : n ≤ length table) where
  length-start : length (take at objs) ≡ at
  length-start = omega (arith, length-take at objs)

  length-new : length (take n table) ≡ n
  length-new = omega (arith, length-take n table)

  splice-take : take (at + n) (splice objs at table n) ≡ take at objs ++ take n table
  splice-take =
      take-append_of_length (take at objs) (take n table ++ drop (at + n) objs) at n length-start
      ∙ ap (◌++◌ (take at objs)) (take-append_self (take n table) (drop (at + n) objs) n length-new)

  pub length-splice : at + n ≤ length objs → length (splice objs at table n) ≡ length objs
  length-splice fits = omega (
    arith,
    length-append (take at objs) (take n table ++ drop (at + n) objs),
    length-append (take n table) (drop (at + n) objs),
    length-start,
    length-new,
    length-drop (at + n) objs,
  )

  pub weigh-splice :
      (f : ℕ → ℕ)
      → weigh f (take (at + n) (splice objs at table n))
        ≡ weigh f (take at objs) + weigh f (take n table)
  weigh-splice f = rw splice-take (weigh-append f (take at objs) (take n table))

none_off : (len : ℕ) → len - 0 ≡ len
none_off len = omega arith

pub pop_objs-weigh :
    (f : ℕ → ℕ) (n len : ℕ) (objs : List ℕ)
    → n ≤ len
    → len ≤ length objs
    → weigh f (pop_objs n (len - 1) objs) + weigh f (take (len - n) objs) ≡ weigh f (take len objs)
unfolding pop_objs
pop_objs-weigh f zero len objs h k = rw (none_off len) (omega arith)
pop_objs-weigh f (suc n) zero objs h k = absurd (omega arith)
pop_objs-weigh f (suc n) (suc len) objs h k =
    rw (pred len, shorter len n)
      (omega (
        arith,
        pop_objs-weigh f n len objs (omega arith) (omega arith),
        weigh-take-suc f len objs (omega arith),
      ))
  where
    pred : (len : ℕ) → suc len - 1 ≡ len
    pred len = omega arith

    shorter : (len n : ℕ) → suc len - suc n ≡ len - n
    shorter len n = omega arith

pub length-pop_objs : (n len : ℕ) (objs : List ℕ) → length (pop_objs n len objs) ≡ n
unfolding pop_objs
length-pop_objs zero len objs = refl
length-pop_objs (suc n) len objs = ap suc (length-pop_objs n (len - 1) objs)
