-- ===== src/Lock/Spinlock.antt =====
-- The recursive spinlock of lib/common/include/generic/rte_spinlock.h on the spinlock of
-- lib/common/include/arch/x86/rte_spinlock.h: any number of threads at work on one lock, one access
-- of a field at a time.
pub mod Owners
pub mod Threads
pub mod Exclusion
use rte_demo.Prelude.{ℕ, zero, suc, ◌+◌, ◌-◌, ◌^◌, ◌<◌, List, [], ◌∷◌, ◌++◌, ◌==◌, if◌then◌else◌}
use rte_demo.Word.{add32, sub32}

-- `rte_spinlock_recursive_t`; `user` is an `int`, and -1 is `nobody`.
pub record Fields : Type 0 where
  pub locked : ℕ
  pub user : ℕ
  pub count : ℕ

abbrev pub nobody : ℕ
nobody = 2 ^ 32 - 1

-- Where a thread stands: outside; before the exchange; in the loop that waits for 0; before the
-- one exchange of a trial; behind an exchange that returned 0; before `count++` and behind it,
-- having called `d` times more than it unlocked; behind a `--count` that gave 0; behind
-- `user = -1`.
pub data Phase : Type 0 where
  outside : Phase
  exchange : Phase
  polling : Phase
  trial : Phase
  entered : Phase
  counting : ℕ → Phase
  held : ℕ → Phase
  released : Phase
  leaving : Phase

-- `xchg locked, lv` with 1 in `lv`: the fields and what `lv` holds then.
unfoldable pub xchg : Fields → ℕ → Fields × ℕ
xchg f lv = (record f { locked = lv }, f.locked)

-- `if (slr->user != id)` of `rte_spinlock_recursive_lock`
unfoldable pub lock_test : ℕ → Fields → ℕ → Fields × Phase
lock_test id f d = (f, if f.user == id then counting d else exchange)

-- The same test of `rte_spinlock_recursive_trylock`.
unfoldable pub trylock_test : ℕ → Fields → ℕ → Fields × Phase
trylock_test id f d = (f, if f.user == id then counting d else trial)

-- The exchange of `rte_spinlock_lock`.
unfoldable pub lock_exchange : Fields → Fields × Phase
unfolding xchg
lock_exchange f = let (f', lv) = xchg f 1 in (f', if lv == 0 then entered else polling)

-- `cmpl $0, locked; jnz 2b; jmp 1b`
unfoldable pub lock_poll : Fields → Fields × Phase
lock_poll f = (f, if f.locked == 0 then exchange else polling)

-- The exchange of `rte_spinlock_trylock`.
unfoldable pub trylock_exchange : Fields → Fields × Phase
unfolding xchg
trylock_exchange f = let (f', lv) = xchg f 1 in (f', if lv == 0 then entered else outside)

-- `slr->user = id;`
unfoldable pub set_user : ℕ → Fields → Fields × Phase
set_user id f = (record f { user = id }, counting 0)

-- `slr->count++;`
unfoldable pub count_up : Fields → ℕ → Fields × Phase
count_up f d = (record f { count = add32 f.count 1 }, held (suc d))

-- `if (--(slr->count) == 0)`
unfoldable pub count_down : Fields → ℕ → Fields × Phase
count_down f d =
    let count' = sub32 f.count 1 in
    (record f { count = count' }, if count' == 0 then released else held (d - 1))

-- `slr->user = -1;`
unfoldable pub clear_user : Fields → Fields × Phase
clear_user f = (record f { user = nobody }, leaving)

-- The exchange of `rte_spinlock_unlock`.
unfoldable pub unlock_exchange : Fields → Fields × Phase
unfolding xchg
unlock_exchange f = ((xchg f 0).0, outside)

-- A call that a thread can make next: one that holds the lock may lock it again or unlock it. A
-- thread that does not hold it does not unlock it: that is the part of the callers, and the source
-- does not test for it.
pub data Call : Type 0 where
  lock trylock unlock : Call

-- The next access of thread `id`; `call` is read where the thread has no call under way.
unfoldable pub act : ℕ → Call → Fields → Phase → Fields × Phase
unfolding lock_test trylock_test lock_exchange lock_poll trylock_exchange set_user count_up
    count_down clear_user unlock_exchange
act id lock f outside = lock_test id f 0
act id trylock f outside = trylock_test id f 0
act id unlock f outside = (f, outside)
act id call f exchange = lock_exchange f
act id call f polling = lock_poll f
act id call f trial = trylock_exchange f
act id call f entered = set_user id f
act id call f (counting d) = count_up f d
act id lock f (held d) = lock_test id f d
act id trylock f (held d) = trylock_test id f d
act id unlock f (held d) = count_down f d
act id call f released = clear_user f
act id call f leaving = unlock_exchange f

pub record Thread : Type 0 where
  pub id : ℕ
  pub phase : Phase

pub record Lock : Type 0 where
  pub fields : Fields
  pub threads : List Thread

-- One access of one thread, wherever it stands among the others. `count` is an `int`: where it
-- would pass 2 ^ 31 - 1 the source has no defined behaviour, and there is no step.
pub data Step : Lock → Lock → Type 0 where
  access :
      (f : Fields) (before after : List Thread) (id : ℕ) (p : Phase) (call : Call)
      → f.count < 2 ^ 31 - 1
      → Step
          (record { fields = f; threads = before ++ record { id = id; phase = p } ∷ after })
          (record {
            fields = (act id call f p).0;
            threads = before ++ record { id = id; phase = (act id call f p).1 } ∷ after;
          })

pub data Run : Lock → Lock → Type 0 where
  stop : (s : Lock) → Run s s
  next : (s t u : Lock) → Run s t → Step t u → Run s u

-- `rte_spinlock_recursive_init`
unfoldable pub init_fields : Fields
init_fields = record { locked = 0; user = nobody; count = 0 }

abbrev pub all_outside : List ℕ → List Thread
all_outside [] = []
all_outside (id ∷ ids) = record { id = id; phase = outside } ∷ all_outside ids

unfoldable pub fresh : List ℕ → Lock
unfolding init_fields
fresh ids = record { fields = init_fields; threads = all_outside ids }
