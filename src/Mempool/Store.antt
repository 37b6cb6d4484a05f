-- ===== src/Mempool/Store.antt =====
-- What a pool asks of the operations behind it (struct rte_mempool_ops of
-- lib/librte_mempool/rte_mempool.h), and what they promise: a queue of at most `capacity` objects
-- whose transfers move all or nothing. A transfer of no object returns an error and moves nothing.
use rte_demo.Prelude.{
  ℕ, ◌+◌, ◌≤◌, ◌<◌, ◌≡◌, List, ◌++◌, length, take, drop, Option, some, ◌==◌, if◌then◌else◌,
}
use rte_demo.Ring.Types.{Result, ok, err, enobufs}

pub record Store : Type 1 where
  pub Data : Type 0
  pub enqueue : Data → List ℕ → ℕ → Option (Result (Unit {0}) × Data)
  pub dequeue : Data → List ℕ → ℕ → Option (Result (Unit {0}) × List ℕ × Data)
  pub get_count : Data → ℕ

-- The value returned for a transfer that finds room or objects.
abbrev pub status : ℕ → Result (Unit {0})
status n = if n == 0 then err enobufs else ok tt

pub record Laws (store : Store) : Type 1 where
  pub IsGood : store.Data → Type 0
  pub held : store.Data → List ℕ
  pub capacity : store.Data → ℕ
  pub enqueue_room :
      (s : store.Data) (objs : List ℕ) (n : ℕ)
      → IsGood s
      → n ≤ length objs
      → length (held s) + n ≤ capacity s
      → (s' : store.Data) × (store.enqueue s objs n ≡ some (status n, s'))
        × IsGood s'
        × (held s' ≡ held s ++ take n objs)
        × (capacity s' ≡ capacity s)
  pub dequeue_enough :
      (s : store.Data) (table : List ℕ) (n : ℕ)
      → IsGood s
      → n ≤ length table
      → n ≤ length (held s)
      → (out : List ℕ) × (s' : store.Data) × (store.dequeue s table n ≡ some (status n, out, s'))
        × IsGood s'
        × (take n out ≡ take n (held s))
        × (length out ≡ length table)
        × (held s' ≡ drop n (held s))
        × (capacity s' ≡ capacity s)
  pub dequeue_short :
      (s : store.Data) (table : List ℕ) (n : ℕ)
      → IsGood s
      → n ≤ length table
      → length (held s) < n
      → (out : List ℕ) × (s' : store.Data) × (store.dequeue s table n ≡ some (err enobufs, out, s'))
        × IsGood s'
        × (length out ≡ length table)
        × (held s' ≡ held s)
        × (capacity s' ≡ capacity s)
  pub get_count_held : (s : store.Data) → IsGood s → store.get_count s ≡ length (held s)
