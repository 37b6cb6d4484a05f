-- ===== src/Lock/Spinlock/Owners.antt =====
-- At most one thread is inside the lock, and the fields tell which one and how often it locked it.
use rte_demo.Prelude.{
  ℕ, suc, ◌+◌, ◌-◌, ◌^◌, ◌≤◌, ◌<◌, ◌≡◌, arith, List, [], ◌∷◌, true, Bool-cases, ◌==◌, inl, inr,
}
use rte_demo.Word.{sub32}
use rte_demo.Lock.Spinlock.{
  Fields, Phase, outside, exchange, polling, trial, entered, counting, held, released, leaving,
  Call, lock, trylock, unlock, xchg, lock_test, trylock_test, lock_exchange, lock_poll,
  trylock_exchange, set_user, count_up, count_down, clear_user, unlock_exchange, act, Thread,
}

-- Whether a thread is between an exchange that returned 0 and the exchange that unlocks.
abbrev pub within : Phase → ℕ
within outside = 0
within exchange = 0
within polling = 0
within trial = 0
within _ = 1

-- One more than the id that `user` holds on behalf of the thread, or 0.
abbrev pub claim : ℕ → Phase → ℕ
claim id (counting d) = suc id
claim id (held d) = suc id
claim id released = suc id
claim id _ = 0

-- How often the thread has locked the lock.
abbrev pub depth : Phase → ℕ
depth (counting d) = d
depth (held d) = d
depth _ = 0

abbrev pub Proper : Phase → Type 0
Proper (held d) = 0 < d
Proper _ = Unit

abbrev pub insiders : List Thread → ℕ
insiders [] = 0
insiders (t ∷ ts) = within t.phase + insiders ts

abbrev pub claims : List Thread → ℕ
claims [] = 0
claims (t ∷ ts) = claim t.id t.phase + claims ts

abbrev pub depths : List Thread → ℕ
depths [] = 0
depths (t ∷ ts) = depth t.phase + depths ts

-- The fields, given how many are inside, what they claim, and how often they locked.
pub record Tells (f : Fields) (inside claimed locks : ℕ) : Type 0 where
  pub one : inside ≤ 1
  pub locked : f.locked ≡ inside
  pub user : f.user ≡ sub32 claimed 1
  pub count : f.count ≡ locks

-- The other threads: `i` are inside, claim `c` and locked `d` times.
module _ (id i c d : ℕ) (small : id < 2 ^ 31) (word : c ≤ 2 ^ 31) (none : i ≡ 0 → (c ≡ 0) × (d ≡ 0))
    (other : ¬ (c ≡ suc id)) where
  pub record Kept (m : Fields × Phase) : Type 0 where
    pub tells : Tells m.0 (i + within m.1) (c + claim id m.1) (d + depth m.1)
    pub proper : Proper m.1

  test-Kept : (f : Fields) → Tells f (i + 0) (c + 0) (d + 0) → Kept (lock_test id f 0)
  unfolding lock_test
  test-Kept f t = elim (Bool-cases (f.user == id)) [
    | inl e ↦ absurd (ground (arith, t.user, other))
    | inr e ↦ rw e (record { tells = t; proper = tt })
  ]

  exchange-Kept : (f : Fields) → Tells f (i + 0) (c + 0) (d + 0) → Kept (lock_exchange f)
  unfolding lock_exchange xchg
  exchange-Kept f t = elim (Bool-cases (f.locked == 0)) [
    | inl e ↦ rw e (record {
      tells = record {
        one = ground (arith, t.locked);
        locked = ground (arith, t.locked);
        user = t.user;
        count = t.count;
      };
      proper = tt;
    })
    | inr e ↦ rw e (record {
      tells = record {
        one = t.one;
        locked = ground (arith, t.locked, t.one);
        user = t.user;
        count = t.count;
      };
      proper = tt;
    })
  ]

  trial-Kept : (f : Fields) → Tells f (i + 0) (c + 0) (d + 0) → Kept (trylock_test id f 0)
  unfolding trylock_test
  trial-Kept f t = elim (Bool-cases (f.user == id)) [
    | inl e ↦ absurd (ground (arith, t.user, other))
    | inr e ↦ rw e (record { tells = t; proper = tt })
  ]

  attempt-Kept : (f : Fields) → Tells f (i + 0) (c + 0) (d + 0) → Kept (trylock_exchange f)
  unfolding trylock_exchange xchg
  attempt-Kept f t = elim (Bool-cases (f.locked == 0)) [
    | inl e ↦ rw e (record {
      tells = record {
        one = ground (arith, t.locked);
        locked = ground (arith, t.locked);
        user = t.user;
        count = t.count;
      };
      proper = tt;
    })
    | inr e ↦ rw e (record {
      tells = record {
        one = t.one;
        locked = ground (arith, t.locked, t.one);
        user = t.user;
        count = t.count;
      };
      proper = tt;
    })
  ]

  poll-Kept : (f : Fields) → Tells f (i + 0) (c + 0) (d + 0) → Kept (lock_poll f)
  unfolding lock_poll
  poll-Kept f t = elim (Bool-cases (f.locked == 0)) [
    | inl e ↦ rw e (record { tells = t; proper = tt })
    | inr e ↦ rw e (record { tells = t; proper = tt })
  ]

  -- A thread that is inside is the only one.
  module _ (f : Fields) (n k : ℕ) (t : Tells f (i + 1) (c + k) (d + n)) where
    alone : (i ≡ 0) × (c ≡ 0) × (d ≡ 0)
    alone = let (a, b) = none (omega (arith, t.one)) in (omega (arith, t.one), a, b)

    user_alone : f.user ≡ sub32 k 1
    user_alone = omega (arith, t.user, alone.1)

    count_alone : f.count ≡ n
    count_alone = omega (arith, t.count, alone.2)

  set_user-Kept : (f : Fields) → Tells f (i + 1) (c + 0) (d + 0) → Kept (set_user id f)
  unfolding set_user
  set_user-Kept f t = record {
    tells = record {
      one = t.one;
      locked = t.locked;
      user = omega (arith, small, (alone f 0 0 t).1);
      count = t.count;
    };
    proper = tt;
  }

  count_up-Kept :
      (f : Fields) (n : ℕ)
      → f.count < 2 ^ 31 - 1
      → Tells f (i + 1) (c + suc id) (d + n)
      → Kept (count_up f n)
  unfolding count_up
  count_up-Kept f n bound t = record {
    tells = record {
      one = t.one;
      locked = t.locked;
      user = t.user;
      count = omega (arith, bound, t.count);
    };
    proper = omega arith;
  }

  relock-Kept :
      (f : Fields) (n : ℕ) → Tells f (i + 1) (c + suc id) (d + n) → Kept (lock_test id f n)
  unfolding lock_test
  relock-Kept f n t = rw own (record { tells = t; proper = tt })
    where
      own : (f.user == id) ≡ true
      own = ground (arith, user_alone f n (suc id) t, small)

  retry-Kept :
      (f : Fields) (n : ℕ) → Tells f (i + 1) (c + suc id) (d + n) → Kept (trylock_test id f n)
  unfolding trylock_test
  retry-Kept f n t = rw own (record { tells = t; proper = tt })
    where
      own : (f.user == id) ≡ true
      own = ground (arith, user_alone f n (suc id) t, small)

  count_down-Kept :
      (f : Fields) (n : ℕ)
      → f.count < 2 ^ 31 - 1
      → 0 < n
      → Tells f (i + 1) (c + suc id) (d + n)
      → Kept (count_down f n)
  unfolding count_down
  count_down-Kept f n bound p t = elim (Bool-cases (sub32 f.count 1 == 0)) [
    | inl e ↦ rw e (record {
      tells = record {
        one = t.one;
        locked = t.locked;
        user = t.user;
        count = ground (arith, bound, count_alone f n (suc id) t, (alone f n (suc id) t).2);
      };
      proper = tt;
    })
    | inr e ↦ rw e (record {
      tells = record {
        one = t.one;
        locked = t.locked;
        user = t.user;
        count = omega (arith, bound, count_alone f n (suc id) t, (alone f n (suc id) t).2);
      };
      proper = ground (arith, bound, count_alone f n (suc id) t);
    })
  ]

  clear_user-Kept : (f : Fields) → Tells f (i + 1) (c + suc id) (d + 0) → Kept (clear_user f)
  unfolding clear_user
  clear_user-Kept f t = record {
    tells = record {
      one = t.one;
      locked = t.locked;
      user = omega (arith, (alone f 0 (suc id) t).1);
      count = t.count;
    };
    proper = tt;
  }

  unlock-Kept : (f : Fields) → Tells f (i + 1) (c + 0) (d + 0) → Kept (unlock_exchange f)
  unfolding unlock_exchange xchg
  unlock-Kept f t = record {
    tells = record {
      one = omega (arith, t.one);
      locked = omega (arith, t.one);
      user = t.user;
      count = t.count;
    };
    proper = tt;
  }

  pub act-Kept :
      (f : Fields) (p : Phase) (call : Call)
      → f.count < 2 ^ 31 - 1
      → Kept (f, p)
      → Kept (act id call f p)
  unfolding act
  act-Kept f outside lock b k = test-Kept f k.tells
  act-Kept f outside trylock b k = trial-Kept f k.tells
  act-Kept f outside unlock b k = k
  act-Kept f exchange call b k = exchange-Kept f k.tells
  act-Kept f polling call b k = poll-Kept f k.tells
  act-Kept f trial call b k = attempt-Kept f k.tells
  act-Kept f entered call b k = set_user-Kept f k.tells
  act-Kept f (counting n) call b k = count_up-Kept f n b k.tells
  act-Kept f (held n) lock b k = relock-Kept f n k.tells
  act-Kept f (held n) trylock b k = retry-Kept f n k.tells
  act-Kept f (held n) unlock b k = count_down-Kept f n b k.proper k.tells
  act-Kept f released call b k = clear_user-Kept f k.tells
  act-Kept f leaving call b k = unlock-Kept f k.tells
