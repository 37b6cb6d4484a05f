-- ===== src/Lock/Rwlock/Exclusion.antt =====
-- Readers and writers exclude each other, and the counter tells who holds the lock.
use rte_demo.Prelude.{
  ℕ, zero, suc, ◌+◌, ◌-◌, ◌^◌, ◌≤◌, ◌<◌, ◌≡◌, refl, sym, ◌⊎◌, inl, inr, arith, List, [], ◌∷◌, ◌++◌,
  length, true, false, Bool-cases, ◌==◌,
}
use rte_demo.Word.{add32, sub32}
use rte_demo.Ring.Transfer.{cmpset}
use rte_demo.Lock.Rwlock.{
  Phase, idle, read_loop, read_found, reading, write_loop, write_found, writing, negative,
  read_load, read_swap, read_unlock, write_load, write_swap, write_unlock, act, Lock, Step,
  read_lock, write_lock, access, Run, stop, next, all_idle, fresh, reads, writes, readers, writers,
}

-- What a thread remembers was found not to be negative.
abbrev Remembered : Phase → Type 0
Remembered (read_found x) = x < 2 ^ 31
Remembered _ = Unit

abbrev AllRemembered : List Phase → Type 0
AllRemembered [] = Unit
AllRemembered (p ∷ ps) = Remembered p × AllRemembered ps

-- No thread writes and the counter counts the readers, or one thread writes, none reads, and the
-- counter is -1.
abbrev pub Counts : ℕ → ℕ → ℕ → Type 0
Counts cnt r w = ((w ≡ 0) × (cnt ≡ r)) ⊎ ((w ≡ 1) × (r ≡ 0) × (cnt ≡ 2 ^ 32 - 1))

record IsSound (s : Lock) : Type 0 where
  few : length s.threads < 2 ^ 31
  counts : Counts s.cnt (readers s.threads) (writers s.threads)
  remembered : AllRemembered s.threads

readers-append : (xs ys : List Phase) → readers (xs ++ ys) ≡ readers xs + readers ys
readers-append [] ys = omega arith
readers-append (x ∷ xs) ys = omega (arith, readers-append xs ys)

writers-append : (xs ys : List Phase) → writers (xs ++ ys) ≡ writers xs + writers ys
writers-append [] ys = omega arith
writers-append (x ∷ xs) ys = omega (arith, writers-append xs ys)

length-middle :
    (xs : List Phase) (p : Phase) (ys : List Phase)
    → length (xs ++ p ∷ ys) ≡ length xs + suc (length ys)
length-middle [] p ys = omega arith
length-middle (x ∷ xs) p ys = omega (arith, length-middle xs p ys)

readers-length : (xs : List Phase) → readers xs ≤ length xs
readers-length [] = omega arith
readers-length (idle ∷ xs) = omega (arith, readers-length xs)
readers-length (read_loop ∷ xs) = omega (arith, readers-length xs)
readers-length (read_found x ∷ xs) = omega (arith, readers-length xs)
readers-length (reading ∷ xs) = omega (arith, readers-length xs)
readers-length (write_loop ∷ xs) = omega (arith, readers-length xs)
readers-length (write_found ∷ xs) = omega (arith, readers-length xs)
readers-length (writing ∷ xs) = omega (arith, readers-length xs)

-- What is kept when `p` is the state of one thread and `r` readers and `w` writers are the others.
abbrev Kept : ℕ → ℕ → ℕ × Phase → Type 0
Kept r w (cnt, p) = Counts cnt (r + reads p) (w + writes p) × Remembered p

module _ (cnt r w : ℕ) (c : Counts cnt (r + 0) (w + 0)) where
  read_load-Kept : Kept r w (read_load cnt)
  unfolding read_load
  read_load-Kept = elim (Bool-cases (negative cnt)) [
    | inl e ↦ rw e (c, tt)
    | inr e ↦ rw e (c, ground arith)
  ]

  read_swap-Kept : (x : ℕ) → suc r < 2 ^ 31 → x < 2 ^ 31 → Kept r w (read_swap cnt x)
  unfolding read_swap cmpset
  read_swap-Kept x h m = elim (Bool-cases (cnt == x)) [
    | inl e ↦ rw e (taken (ground arith) c, tt)
    | inr e ↦ rw e (c, tt)
  ]
    where
      taken : cnt ≡ x → Counts cnt (r + 0) (w + 0) → Counts (add32 x 1) (r + 1) (w + 0)
      taken e (inl (a, b)) = inl (a, omega arith)
      taken e (inr (a, b, d)) = absurd (omega arith)

  write_load-Kept : Kept r w (write_load cnt)
  unfolding write_load
  write_load-Kept = elim (Bool-cases (cnt == 0)) [ inl e ↦ rw e (c, tt) | inr e ↦ rw e (c, tt) ]

  write_swap-Kept : Kept r w (write_swap cnt)
  unfolding write_swap cmpset
  write_swap-Kept = elim (Bool-cases (cnt == 0)) [
    | inl e ↦ rw e (taken (ground arith) c, tt)
    | inr e ↦ rw e (c, tt)
  ]
    where
      taken : cnt ≡ 0 → Counts cnt (r + 0) (w + 0) → Counts (2 ^ 32 - 1) (r + 0) (w + 1)
      taken e (inl (a, b)) = inr (omega arith, omega arith, refl)
      taken e (inr (a, b, d)) = absurd (omega arith)

act-Kept : (cnt r w : ℕ) (p : Phase) → suc r < 2 ^ 31 → Kept r w (cnt, p) → Kept r w (act cnt p)
unfolding act read_unlock write_unlock
act-Kept cnt r w idle h (c, m) = (c, tt)
act-Kept cnt r w read_loop h (c, m) = read_load-Kept cnt r w c
act-Kept cnt r w (read_found x) h (c, m) = read_swap-Kept cnt r w c x h m
act-Kept cnt r w reading h (inl (a, b), m) = (inl (a, omega arith), tt)
act-Kept cnt r w reading h (inr (a, b, d), m) = absurd (omega arith)
act-Kept cnt r w write_loop h (c, m) = write_load-Kept cnt r w c
act-Kept cnt r w write_found h (c, m) = write_swap-Kept cnt r w c
act-Kept cnt r w writing h (inl (a, b), m) = absurd (omega arith)
act-Kept cnt r w writing h (inr (a, b, d), m) = (inl (omega arith, omega arith), tt)

-- The thread that moves, and the others.
module _ (before after : List Phase) where
  others-readers :
      (p : Phase) → readers (before ++ p ∷ after) ≡ readers before + readers after + reads p
  others-readers p = omega (arith, readers-append before (p ∷ after))

  others-writers :
      (p : Phase) → writers (before ++ p ∷ after) ≡ writers before + writers after + writes p
  others-writers p = omega (arith, writers-append before (p ∷ after))

Remembered-middle :
    (xs : List Phase) (p : Phase) (ys : List Phase) → AllRemembered (xs ++ p ∷ ys) → Remembered p
Remembered-middle [] p ys (m, ms) = m
Remembered-middle (x ∷ xs) p ys (m, ms) = Remembered-middle xs p ys ms

AllRemembered-replace :
    (xs : List Phase) (p q : Phase) (ys : List Phase)
    → AllRemembered (xs ++ p ∷ ys)
    → Remembered q
    → AllRemembered (xs ++ q ∷ ys)
AllRemembered-replace [] p q ys (m, ms) k = (k, ms)
AllRemembered-replace (x ∷ xs) p q ys (m, ms) k = (m, AllRemembered-replace xs p q ys ms k)

Counts-cong : (cnt r r' w w' : ℕ) → r ≡ r' → w ≡ w' → Counts cnt r w → Counts cnt r' w'
Counts-cong cnt r r' w w' e d (inl (a, b)) = inl (omega arith, omega arith)
Counts-cong cnt r r' w w' e d (inr (a, b, c)) = inr (omega arith, omega arith, c)

moved-IsSound :
    (cnt cnt' : ℕ) (before after : List Phase) (p q : Phase)
    → (suc (readers before + readers after) < 2 ^ 31
        → Kept (readers before + readers after) (writers before + writers after) (cnt, p)
        → Kept (readers before + readers after) (writers before + writers after) (cnt', q))
    → IsSound (record { cnt = cnt; threads = before ++ p ∷ after })
    → IsSound (record { cnt = cnt'; threads = before ++ q ∷ after })
moved-IsSound cnt cnt' before after p q move v = record {
  few = omega (arith, v.few, length-middle before p after, length-middle before q after);
  counts =
      Counts-cong cnt' _ _ _ _ (sym (others-readers before after q))
        (sym (others-writers before after q)) done.0;
  remembered = AllRemembered-replace before p q after v.remembered done.1;
}
  where
    done : Kept (readers before + readers after) (writers before + writers after) (cnt', q)
    done =
        move
          (omega (
            arith,
            v.few,
            length-middle before p after,
            readers-length before,
            readers-length after,
          ))
          (
            Counts-cong cnt _ _ _ _ (others-readers before after p) (others-writers before after p)
                v.counts,
            Remembered-middle before p after v.remembered,
          )

Step-IsSound : (s t : Lock) → Step s t → IsSound s → IsSound t
Step-IsSound s t (read_lock cnt before after) v =
    moved-IsSound cnt cnt before after idle read_loop (λ h k. k) v
Step-IsSound s t (write_lock cnt before after) v =
    moved-IsSound cnt cnt before after idle write_loop (λ h k. k) v
Step-IsSound s t (access cnt before after p) v =
    moved-IsSound cnt (act cnt p).0 before after p (act cnt p).1
      (λ h k. act-Kept cnt (readers before + readers after) (writers before + writers after) p h k)
      v

all_idle-IsSound :
    (n : ℕ)
    → (readers (all_idle n) ≡ 0)
      × (writers (all_idle n) ≡ 0)
      × (length (all_idle n) ≡ n)
      × AllRemembered (all_idle n)
all_idle-IsSound zero = (refl, refl, refl, tt)
all_idle-IsSound (suc n) =
    let (r, w, l, m) = all_idle-IsSound n in
    (omega (arith, r), omega (arith, w), omega (arith, l), (tt, m))

fresh-IsSound : (n : ℕ) → n < 2 ^ 31 → IsSound (fresh n)
unfolding fresh
fresh-IsSound n h =
    let (r, w, l, m) = all_idle-IsSound n in
    record { few = omega (arith, l); counts = inl (w, sym r); remembered = m }

Run-IsSound : (n : ℕ) (s : Lock) → n < 2 ^ 31 → Run (fresh n) s → IsSound s
Run-IsSound n s h run = go s run
  where
    go : (u : Lock) → Run (fresh n) u → IsSound u
    go u (stop _) = fresh-IsSound n h
    go u (next _ t _ r step) = Step-IsSound t u step (go t r)

-- However the accesses of fewer than 2 ^ 31 threads interleave after `rte_rwlock_init`, either no
-- thread holds the lock for writing and the counter is the number of readers, or just one does,
-- no thread reads, and the counter is -1.
pub rwlock_exclusion :
    (n : ℕ) (s : Lock)
    → n < 2 ^ 31
    → Run (fresh n) s
    → Counts s.cnt (readers s.threads) (writers s.threads)
rwlock_exclusion n s h run = (Run-IsSound n s h run).counts

-- Two accesses of a thread with no other in between: the test and the swap.
abbrev pub attempt : ℕ → Phase → ℕ × Phase
attempt cnt p = act (act cnt p).0 (act cnt p).1

-- Undisturbed, a reader gets in whenever the counter is not negative and the next count fits, a
-- writer whenever the counter is 0, and each unlock takes back what its lock did.
pub rwlock_attempt :
    (cnt : ℕ)
    → suc cnt < 2 ^ 31
    → (attempt cnt read_loop ≡ (suc cnt, reading))
      × (act (suc cnt) reading ≡ (cnt, idle))
      × (attempt 0 write_loop ≡ (2 ^ 32 - 1, writing))
      × (act (2 ^ 32 - 1) writing ≡ (0, idle))
unfolding act read_load read_swap read_unlock write_load write_swap write_unlock cmpset
rwlock_attempt cnt h = (rw (positive, same, up), rw down, refl, refl)
  where
    positive : negative cnt ≡ false
    positive = ground arith

    same : (cnt == cnt) ≡ true
    same = ground arith

    up : add32 cnt 1 ≡ suc cnt
    up = omega arith

    down : sub32 (suc cnt) 1 ≡ cnt
    down = omega arith
