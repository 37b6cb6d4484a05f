-- ===== src/Mempool/Ops.antt =====
-- The table of pool operations: lib/librte_mempool/rte_mempool_ops.c, with its lock held.
use rte_demo.Prelude.{
  same_name, ℕ, zero, suc, ◌+◌, ◌-◌, List, [], ◌∷◌, length, get_or, set, Option, none, some, Bool,
  true, false, ◌||◌, ltb, leb, if◌then◌else◌,
}
use rte_demo.Ring.Types.{einval, enospc, eexist, Result, ok, err}
use rte_demo.Ring.Setup.{has}
use rte_demo.Ring.Transfer.{◌>>=◌}
use rte_demo.Mempool.Store.{Store}
use rte_demo.Mempool.Types.{Pool}
use rte_demo.Mempool.Populate.{pool_created}

-- `struct rte_mempool_ops`: the callbacks are addresses, `none` for NULL.
pub record Callbacks : Type 0 where
  pub name : List ℕ
  pub alloc : Option ℕ
  pub release : Option ℕ
  pub enqueue : Option ℕ
  pub dequeue : Option ℕ
  pub get_count : Option ℕ

-- `RTE_MEMPOOL_MAX_OPS_IDX`, `RTE_MEMPOOL_OPS_NAMESIZE`
abbrev pub max_ops_idx : ℕ
max_ops_idx = 16

abbrev pub ops_namesize : ℕ
ops_namesize = 32

-- `struct rte_mempool_ops_table`
pub record OpsTable : Type 0 where
  pub num_ops : ℕ
  pub entries : List Callbacks

abbrev pub no_ops : Callbacks
no_ops = record {
  name = [];
  alloc = none;
  release = none;
  enqueue = none;
  dequeue = none;
  get_count = none;
}

abbrev pub is_null : Option ℕ → Bool
is_null none = true
is_null (some a) = false

-- `rte_mempool_register_ops`: the index or the error, and the table.
unfoldable pub register_ops : OpsTable → Callbacks → Result ℕ × OpsTable
register_ops t h =
    if leb max_ops_idx t.num_ops
    then (err enospc, t)
    else if is_null h.alloc || is_null h.enqueue || is_null h.dequeue || is_null h.get_count
    then (err einval, t)
    else if leb (ops_namesize - 1) (length h.name)
    then (err eexist, t)
    else (ok t.num_ops, record { num_ops = t.num_ops + 1; entries = set t.entries t.num_ops h })

-- The loop of `rte_mempool_set_ops_byname` over the first `n` entries, from the index `i` on.
unfoldable pub find_ops : List Callbacks → (n i : ℕ) → List ℕ → Option ℕ
find_ops entries zero i name = none
find_ops [] (suc n) i name = none
find_ops (e ∷ entries) (suc n) i name =
    let rest = find_ops entries n (i + 1) name in if same_name name e.name then some i else rest

-- `rte_mempool_get_ops`, `none` where RTE_VERIFY panics.
unfoldable pub get_ops : OpsTable → ℕ → Option Callbacks
get_ops t ops_index =
    if ltb ops_index max_ops_idx then some (get_or t.entries ops_index no_ops) else none

module _ {store : Store} where
  abbrev pub choose : Pool store → (pool_config : ℕ) → Option ℕ → Result (Unit {0}) × Pool store
  choose mp pool_config none = (err einval, mp)
  choose mp pool_config (some i) = (ok tt, record mp { ops_index = i; pool_config = pool_config })

  -- `rte_mempool_set_ops_byname`; the configuration is an address.
  unfoldable pub set_ops_byname :
      OpsTable → Pool store → List ℕ → (pool_config : ℕ) → Result (Unit {0}) × Pool store
  unfolding find_ops
  set_ops_byname t mp name pool_config =
      if has mp.flags pool_created
      then (err eexist, mp)
      else choose mp pool_config (find_ops t.entries t.num_ops 0 name)

  -- The callback that `rte_mempool_ops_alloc`, `rte_mempool_ops_free` and
  -- `rte_mempool_ops_get_count` call; `rte_mempool_ops_free` calls none where there is none.
  unfoldable pub ops_alloc : OpsTable → Pool store → Option (Option ℕ)
  unfolding get_ops
  ops_alloc t mp = do ops ← get_ops t mp.ops_index; some ops.alloc

  unfoldable pub ops_free : OpsTable → Pool store → Option (Option ℕ)
  unfolding get_ops
  ops_free t mp = do ops ← get_ops t mp.ops_index; some ops.release

  unfoldable pub ops_get_count : OpsTable → Pool store → Option (Option ℕ)
  unfolding get_ops
  ops_get_count t mp = do ops ← get_ops t mp.ops_index; some ops.get_count
