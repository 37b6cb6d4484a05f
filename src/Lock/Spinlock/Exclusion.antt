-- ===== src/Lock/Spinlock/Exclusion.antt =====
-- The threads of a recursive spinlock exclude each other, however their accesses interleave.
use rte_demo.Prelude.{ℕ, ◌+◌, ◌^◌, ◌≤◌, ◌<◌, ◌≡◌, refl, sym, arith, List, [], ◌∷◌, ◌++◌}
use rte_demo.Lock.Spinlock.{
  Fields, Phase, act, Thread, Lock, Step, access, Run, stop, next, init_fields, all_outside, fresh,
}
use rte_demo.Lock.Spinlock.Owners.{insiders, claims, depths, Tells, Kept, act-Kept}
use rte_demo.Lock.Spinlock.Threads.{
  IsNew, Distinct, AllProper, outsiders, claims-IsNew, claims-le, insiders-middle, claims-middle,
  depths-middle, Proper-middle, Distinct-others, AllProper-replace, Distinct-replace,
}

record IsSound (s : Lock) : Type 0 where
  tells : Tells s.fields (insiders s.threads) (claims s.threads) (depths s.threads)
  proper : AllProper s.threads
  distinct : Distinct s.threads

Tells-cong :
    (f : Fields) (i i' c c' d d' : ℕ) → i ≡ i' → c ≡ c' → d ≡ d' → Tells f i c d → Tells f i' c' d'
Tells-cong f i i' c c' d d' ei ec ed t = record {
  one = omega (arith, t.one);
  locked = omega (arith, t.locked);
  user = omega (arith, t.user);
  count = omega (arith, t.count);
}

Step-IsSound : (s u : Lock) → Step s u → IsSound s → IsSound u
Step-IsSound s u (access f xs ys id p call b) v = record {
  tells =
      Tells-cong f' _ _ _ _ _ _ (sym (insiders-middle t' xs ys)) (sym (claims-middle t' xs ys))
        (sym (depths-middle t' xs ys)) done.tells;
  proper = AllProper-replace id p p' xs ys v.proper done.proper;
  distinct = Distinct-replace id p p' xs ys v.distinct;
}
  where
    t : Thread
    t = record { id = id; phase = p }

    f' : Fields
    f' = (act id call f p).0

    p' : Phase
    p' = (act id call f p).1

    t' : Thread
    t' = record { id = id; phase = p' }

    others : (id < 2 ^ 31) × IsNew id (xs ++ ys) × Distinct (xs ++ ys)
    others = Distinct-others t xs ys v.distinct

    few : insiders (xs ++ ys) ≤ 1
    few = omega (arith, v.tells.one, insiders-middle t xs ys)

    done :
        Kept id
          (insiders (xs ++ ys))
          (claims (xs ++ ys))
          (depths (xs ++ ys))
          others.0
          (claims-le (xs ++ ys) others.2 few)
          (outsiders (xs ++ ys))
          (claims-IsNew id (xs ++ ys) others.1 few)
          (act id call f p)
    done =
        act-Kept id (insiders (xs ++ ys)) (claims (xs ++ ys)) (depths (xs ++ ys)) others.0
          (claims-le (xs ++ ys) others.2 few) (outsiders (xs ++ ys))
          (claims-IsNew id (xs ++ ys) others.1 few) f p call b
          (record {
            tells =
                Tells-cong f _ _ _ _ _ _ (insiders-middle t xs ys) (claims-middle t xs ys)
                  (depths-middle t xs ys) v.tells;
            proper = Proper-middle t xs ys v.proper;
          })

nobody_inside :
    (ids : List ℕ)
    → (insiders (all_outside ids) ≡ 0)
      × (claims (all_outside ids) ≡ 0)
      × (depths (all_outside ids) ≡ 0)
      × AllProper (all_outside ids)
nobody_inside [] = (refl, refl, refl, tt)
nobody_inside (id ∷ ids) =
    let (i, c, d, m) = nobody_inside ids in
    (omega (arith, i), omega (arith, c), omega (arith, d), (tt, m))

module _ (ids : List ℕ) (different : Distinct (all_outside ids)) where
  fresh-IsSound : IsSound (fresh ids)
  unfolding fresh init_fields
  fresh-IsSound =
      let (i, c, d, m) = nobody_inside ids in
      record {
        tells = record {
          one = omega (arith, i);
          locked = sym i;
          user = omega (arith, c);
          count = sym d;
        };
        proper = m;
        distinct = different;
      }

  Run-IsSound : (s : Lock) → Run (fresh ids) s → IsSound s
  Run-IsSound s (stop _) = fresh-IsSound
  Run-IsSound s (next _ t _ r step) = Step-IsSound t s step (Run-IsSound t r)

  -- However the accesses of threads with different ids interleave, at most one thread is inside
  -- the lock, `locked` counts it, `user` is its id from `user = id` to `user = -1` and -1
  -- otherwise, and `count` is how often it locked.
  pub spinlock_exclusion :
      (s : Lock)
      → Run (fresh ids) s
      → Tells s.fields (insiders s.threads) (claims s.threads) (depths s.threads)
  spinlock_exclusion s run = (Run-IsSound s run).tells

  -- While a thread holds the lock after `n` calls that it has not unlocked, `n` is positive, the
  -- fields say so, and no other thread is inside.
  pub spinlock_owner :
      (f : Fields) (xs ys : List Thread) (id n : ℕ)
      → Run
          (fresh ids)
          (record { fields = f; threads = xs ++ record { id = id; phase = Phase.held n } ∷ ys })
      → (f.locked ≡ 1) × (f.user ≡ id) × (f.count ≡ n) × (0 < n) × (insiders (xs ++ ys) ≡ 0)
  spinlock_owner f xs ys id n run = (
    omega (arith, told.locked, told.one, within_middle),
    omega (arith, told.user, claims-middle t xs ys, none.0, others.0),
    omega (arith, told.count, depths-middle t xs ys, none.1),
    Proper-middle t xs ys sound.proper,
    empty,
  )
    where
      t : Thread
      t = record { id = id; phase = Phase.held n }

      sound : IsSound (record { fields = f; threads = xs ++ t ∷ ys })
      sound = Run-IsSound _ run

      told : Tells f (insiders (xs ++ t ∷ ys)) (claims (xs ++ t ∷ ys)) (depths (xs ++ t ∷ ys))
      told = sound.tells

      within_middle : insiders (xs ++ t ∷ ys) ≡ insiders (xs ++ ys) + 1
      within_middle = insiders-middle t xs ys

      empty : insiders (xs ++ ys) ≡ 0
      empty = omega (arith, told.one, within_middle)

      none : (claims (xs ++ ys) ≡ 0) × (depths (xs ++ ys) ≡ 0)
      none = outsiders (xs ++ ys) empty

      others : (id < 2 ^ 31) × IsNew id (xs ++ ys) × Distinct (xs ++ ys)
      others = Distinct-others t xs ys sound.distinct
