-- ===== src/Ring/Concurrent/Tests.antt =====
-- Two producers at work on a ring of four slots whose indices stand just before their wrap.
use rte_demo.Prelude.{ℕ, ◌+◌, ◌-◌, ◌^◌, ◌<◌, ◌≡◌, refl, arith, [], ◌∷◌}
use rte_demo.Ring.Types.{fixed, variable}
use rte_demo.Ring.Transfer.{granted, cmpset}
use rte_demo.Malloc.Types.{update}
use rte_demo.Ring.Concurrent.{
  Phase, p_start, p_head, System, fresh, act, produce, enqueue, access, Reach, begin, later,
}
use rte_demo.Ring.Concurrent.Owners.{IsSound}
use rte_demo.Ring.Concurrent.Reached.{Reach-IsSound, Advances, tail_advances_lem}

abbrev blank : ℕ → ℕ
blank i = 0

abbrev at_work : System → ℕ → Phase → System
at_work w t p = record w { threads = update w.threads t p }

abbrev goes : System → ℕ → System
goes w t = record {
  shared = (act 2 3 w.shared (w.threads t)).0;
  threads = update w.threads t (act 2 3 w.shared (w.threads t)).1;
}

-- Thread 0 asks for two places, thread 1 for as many as there are.
abbrev asked : System
asked =
    at_work (at_work (fresh (2 ^ 32 - 1) blank) 0 (p_start (7 ∷ 8 ∷ []) fixed)) 1
      (p_start (9 ∷ 10 ∷ []) variable)

-- Thread 0 has swapped the head and written one object; thread 1 has read the head behind it.
abbrev busy : System
busy = goes (goes (goes (goes (goes asked 0) 0) 0) 0) 1

busy-Reach : Reach 2 3 (2 ^ 32 - 1) blank busy
unfolding act produce cmpset granted
busy-Reach =
    later
      (later
        (later
          (later
            (later
              (later (later begin (enqueue 0 (7 ∷ 8 ∷ []) fixed refl))
                (enqueue 1 (9 ∷ 10 ∷ []) variable refl))
              (access 0 tt))
            (access 0 tt))
          (access 0 (omega arith)))
        (access 0 tt))
      (access 1 tt)

busy_heads :
    (busy.shared.prod_head ≡ 2 ^ 32 + 1)
    × (busy.shared.prod_tail ≡ 2 ^ 32 - 1)
    × (busy.threads 1 ≡ p_head (9 ∷ 10 ∷ []) variable (2 ^ 32 + 1))
    × (busy.shared.slots 3 ≡ 7)
unfolding act produce cmpset granted
busy_heads = (refl, refl, refl, refl)

Reach-IsSound_example : IsSound 2 3 busy
Reach-IsSound_example =
    Reach-IsSound 2 3 (2 ^ 32 - 1) blank busy (omega arith) (omega arith) busy-Reach

busy_behind : busy.shared.prod_tail < busy.shared.prod_head
unfolding act produce cmpset granted
busy_behind = omega arith

tail_advances_lem_example : (t : ℕ) × Advances 2 3 busy.shared (busy.threads t)
tail_advances_lem_example =
    tail_advances_lem 2 3 (2 ^ 32 - 1) blank busy (omega arith) (omega arith) busy-Reach busy_behind
