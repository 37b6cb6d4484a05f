-- ===== src/Lock/Tests.antt =====
-- Runs of the locks with two threads.
use rte_demo.Lock.Spinlock
use rte_demo.Lock.Spinlock.{Fields, Thread, outside, exchange, trial, entered, counting, held}
use rte_demo.Lock.Spinlock.Owners.{Tells, insiders}
use rte_demo.Lock.Spinlock.Threads.{Distinct}
use rte_demo.Lock.Spinlock.Exclusion.{spinlock_exclusion, spinlock_owner}
use rte_demo.Prelude.{ℕ, ◌<◌, ◌-◌, ◌^◌, ◌≡◌, arith, [], ◌∷◌}
use rte_demo.Ring.Transfer.{cmpset}
use rte_demo.Lock.Rwlock.{
  Phase, idle, read_loop, read_found, reading, write_loop, read_load, read_swap, write_load, act,
  Lock, read_lock, write_lock, access, Run, stop, next, fresh, readers, writers,
}
use rte_demo.Lock.Rwlock.Exclusion.{Counts, rwlock_exclusion}

abbrev state : ℕ → Phase → Phase → Lock
state cnt p q = record { cnt = cnt; threads = p ∷ q ∷ [] }

-- The first thread reads while the second waits to write.
shared-Run : Run (fresh 2) (state 1 reading write_loop)
unfolding fresh act read_load read_swap write_load cmpset
shared-Run =
    next _ (state 1 reading write_loop) _
      (next _ (state 1 reading idle) _
        (next _ (state 0 (read_found 0) idle) _
          (next _ (state 0 read_loop idle) _
            (next _ (state 0 idle idle) _ (stop _) (read_lock 0 [] (idle ∷ [])))
            (access 0 [] (idle ∷ []) read_loop))
          (access 0 [] (idle ∷ []) (read_found 0)))
        (write_lock 1 (reading ∷ []) []))
      (access 1 (reading ∷ []) [] write_loop)

rwlock_exclusion_example :
    Counts 1 (readers (reading ∷ write_loop ∷ [])) (writers (reading ∷ write_loop ∷ []))
rwlock_exclusion_example = rwlock_exclusion 2 (state 1 reading write_loop) (omega arith) shared-Run

abbrev fields : ℕ → ℕ → ℕ → Fields
fields l u c = record { locked = l; user = u; count = c }

abbrev thread : ℕ → Spinlock.Phase → Thread
thread id p = record { id = id; phase = p }

abbrev spin : Fields → Spinlock.Phase → Spinlock.Phase → Spinlock.Lock
spin f p q = record { fields = f; threads = thread 7 p ∷ thread 9 q ∷ [] }

ids-Distinct : Distinct (Spinlock.all_outside (7 ∷ 9 ∷ []))
ids-Distinct = (omega arith, ((λ e. absurd (omega arith)), tt), (omega arith, tt, tt))

-- The access of the first thread, from the fields `f`, while the other is outside.
first :
    (f : Fields) (p : Spinlock.Phase) (call : Spinlock.Call)
    → f.count < 2 ^ 31 - 1
    → Spinlock.Step
        (spin f p outside)
        (spin (Spinlock.act 7 call f p).0 (Spinlock.act 7 call f p).1 outside)
first f p call b = Spinlock.access f [] (thread 9 outside ∷ []) 7 p call b

-- Thread 7 holds the lock and thread 9 fails to take it.
held-Run : Spinlock.Run (Spinlock.fresh (7 ∷ 9 ∷ [])) (spin (fields 1 7 1) (held 1) outside)
unfolding Spinlock.fresh Spinlock.init_fields Spinlock.act Spinlock.lock_test Spinlock.lock_exchange
    Spinlock.xchg Spinlock.set_user Spinlock.count_up Spinlock.trylock_test
    Spinlock.trylock_exchange
held-Run =
    Spinlock.next _ (spin (fields 1 7 1) (held 1) trial) _
      (Spinlock.next _ (spin (fields 1 7 1) (held 1) outside) _
        (Spinlock.next _ (spin (fields 1 7 0) (counting 0) outside) _
          (Spinlock.next _ (spin (fields 1 (2 ^ 32 - 1) 0) entered outside) _
            (Spinlock.next _ (spin (fields 0 (2 ^ 32 - 1) 0) exchange outside) _
              (Spinlock.next _ (spin (fields 0 (2 ^ 32 - 1) 0) outside outside) _ (Spinlock.stop _)
                (first (fields 0 (2 ^ 32 - 1) 0) outside Spinlock.lock (omega arith)))
              (first (fields 0 (2 ^ 32 - 1) 0) exchange Spinlock.lock (omega arith)))
            (first (fields 1 (2 ^ 32 - 1) 0) entered Spinlock.lock (omega arith)))
          (first (fields 1 7 0) (counting 0) Spinlock.lock (omega arith)))
        (Spinlock.access (fields 1 7 1) (thread 7 (held 1) ∷ []) [] 9 outside Spinlock.trylock
          (omega arith)))
      (Spinlock.access (fields 1 7 1) (thread 7 (held 1) ∷ []) [] 9 trial Spinlock.trylock
        (omega arith))

spinlock_exclusion_example : Tells (fields 1 7 1) 1 8 1
spinlock_exclusion_example =
    spinlock_exclusion (7 ∷ 9 ∷ []) ids-Distinct (spin (fields 1 7 1) (held 1) outside) held-Run

spinlock_owner_example :
    ((fields 1 7 1).locked ≡ 1)
    × ((fields 1 7 1).user ≡ 7)
    × ((fields 1 7 1).count ≡ 1)
    × (0 < 1)
    × (insiders (thread 9 outside ∷ []) ≡ 0)
spinlock_owner_example =
    spinlock_owner (7 ∷ 9 ∷ []) ids-Distinct (fields 1 7 1) [] (thread 9 outside ∷ []) 7 1 held-Run
