-- ===== src/Ring/Queue.antt =====
-- The promise of the ring: a first-in first-out queue of at most `cap` objects.
use rte_demo.Prelude.{ℕ, ◌≤◌, arith, ◌-◌, List, ◌++◌, length, take, drop, ltb, if◌then◌else◌}
use rte_demo.Ring.Types.{Behavior, fixed, variable}

abbrev pub Queue : Type 0
Queue = List ℕ

-- All or nothing for a bulk transfer, as many as there are for a burst.
abbrev pub moved : Behavior → ℕ → ℕ → ℕ
moved fixed n found = if ltb found n then 0 else n
moved variable n found = if ltb found n then found else n

pub moved_bounds : (b : Behavior) (n found : ℕ) → (moved b n found ≤ found) × (moved b n found ≤ n)
moved_bounds fixed n found = ground arith
moved_bounds variable n found = ground arith

unfoldable pub enqueue : ℕ → Behavior → ℕ → List ℕ → Queue → ℕ × Queue
enqueue cap b n words q = let m = moved b n (cap - length q) in (m, q ++ take m words)

unfoldable pub dequeue : Behavior → ℕ → Queue → ℕ × List ℕ × Queue
dequeue b n q = let m = moved b n (length q) in (m, take m q, drop m q)
