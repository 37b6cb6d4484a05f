-- ===== src/Lock/Rwlock.antt =====
-- lib/common/include/generic/rte_rwlock.h: any number of threads at work on one lock, one atomic
-- access of the counter at a time.
pub mod Exclusion
use rte_demo.Prelude.{
  ℕ, zero, suc, ◌+◌, ◌-◌, ◌*◌, ◌%◌, ◌^◌, ◌<◌, List, [], ◌∷◌, ◌++◌, length, leb, ◌==◌, Bool,
  if◌then◌else◌,
}
use rte_demo.Word.{add32, sub32}
use rte_demo.Ring.Transfer.{cmpset}

-- Where a thread stands. `read_found x` is behind the test of `x` in the loop of
-- `rte_rwlock_read_lock`, `write_found` behind that of `rte_rwlock_write_lock`.
pub data Phase : Type 0 where
  idle : Phase
  read_loop : Phase
  read_found : ℕ → Phase
  reading : Phase
  write_loop : Phase
  write_found : Phase
  writing : Phase

-- The counter as an `int32_t` is negative.
abbrev pub negative : ℕ → Bool
negative x = leb (2 ^ 31) x

-- `x = rwl->cnt; if (x < 0) continue;`
unfoldable pub read_load : ℕ → ℕ × Phase
read_load cnt = (cnt, if negative cnt then read_loop else read_found cnt)

-- `success = rte_atomic32_cmpset(&rwl->cnt, x, x + 1);`
unfoldable pub read_swap : ℕ → ℕ → ℕ × Phase
unfolding cmpset
read_swap cnt x =
    let (cnt', success) = cmpset cnt x (add32 x 1) in (cnt', if success then reading else read_loop)

unfoldable pub read_unlock : ℕ → ℕ × Phase
read_unlock cnt = (sub32 cnt 1, idle)

-- `x = rwl->cnt; if (x != 0) continue;`
unfoldable pub write_load : ℕ → ℕ × Phase
write_load cnt = (cnt, if cnt == 0 then write_found else write_loop)

-- `success = rte_atomic32_cmpset(&rwl->cnt, 0, -1);`
unfoldable pub write_swap : ℕ → ℕ × Phase
unfolding cmpset
write_swap cnt =
    let (cnt', success) = cmpset cnt 0 (2 ^ 32 - 1) in
    (cnt', if success then writing else write_loop)

unfoldable pub write_unlock : ℕ → ℕ × Phase
write_unlock cnt = (add32 cnt 1, idle)

-- The next access of a thread that is at work: the counter and where the thread stands after it.
unfoldable pub act : ℕ → Phase → ℕ × Phase
unfolding read_load read_swap read_unlock write_load write_swap write_unlock
act cnt idle = (cnt, idle)
act cnt read_loop = read_load cnt
act cnt (read_found x) = read_swap cnt x
act cnt reading = read_unlock cnt
act cnt write_loop = write_load cnt
act cnt write_found = write_swap cnt
act cnt writing = write_unlock cnt

-- `rte_rwlock_t`, and the threads.
pub record Lock : Type 0 where
  pub cnt : ℕ
  pub threads : List Phase

-- One thread, wherever it stands among the others, starts a call or makes its next access.
pub data Step : Lock → Lock → Type 0 where
  read_lock :
      (cnt : ℕ) (before after : List Phase)
      → Step
          (record { cnt = cnt; threads = before ++ idle ∷ after })
          (record { cnt = cnt; threads = before ++ read_loop ∷ after })
  write_lock :
      (cnt : ℕ) (before after : List Phase)
      → Step
          (record { cnt = cnt; threads = before ++ idle ∷ after })
          (record { cnt = cnt; threads = before ++ write_loop ∷ after })
  access :
      (cnt : ℕ) (before after : List Phase) (p : Phase)
      → Step
          (record { cnt = cnt; threads = before ++ p ∷ after })
          (record { cnt = (act cnt p).0; threads = before ++ (act cnt p).1 ∷ after })

-- Any number of steps, in any order.
pub data Run : Lock → Lock → Type 0 where
  stop : (s : Lock) → Run s s
  next : (s t u : Lock) → Run s t → Step t u → Run s u

-- `rte_rwlock_init`, with `n` threads outside.
abbrev pub all_idle : ℕ → List Phase
all_idle zero = []
all_idle (suc n) = idle ∷ all_idle n

unfoldable pub fresh : ℕ → Lock
fresh n = record { cnt = 0; threads = all_idle n }

abbrev pub reads : Phase → ℕ
reads reading = 1
reads _ = 0

abbrev pub writes : Phase → ℕ
writes writing = 1
writes _ = 0

-- How many threads hold the lock.
abbrev pub readers : List Phase → ℕ
readers [] = 0
readers (p ∷ ps) = reads p + readers ps

abbrev pub writers : List Phase → ℕ
writers [] = 0
writers (p ∷ ps) = writes p + writers ps
