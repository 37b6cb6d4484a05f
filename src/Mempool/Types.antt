-- ===== src/Mempool/Types.antt =====
-- The data of lib/librte_mempool/rte_mempool.h.
use rte_demo.Prelude.{ℕ, List, [], Option, none, some, set, get_or}
use rte_demo.Mempool.Store.{Store}
use rte_demo.Mempool.Cache.{Cache}

-- `struct rte_mempool_memhdr`: its address, the chunk, the callback (`none` for NULL) and its argument.
pub record Chunk : Type 0 where
  pub header : ℕ
  pub addr : ℕ
  pub len : ℕ
  pub free_cb : Option ℕ
  pub opaque : ℕ

-- `struct rte_mempool`. `pool_data` is the store behind the pool, `elt_list` the addresses of the
-- object headers and `local_cache` the array of caches, one for each core.
pub record Pool (store : Store) : Type 0 where
  pub name : List ℕ
  pub pool_data : store.Data
  pub flags : ℕ
  pub size : ℕ
  pub cache_size : ℕ
  pub elt_size : ℕ
  pub header_size : ℕ
  pub trailer_size : ℕ
  pub private_data_size : ℕ
  pub ops_index : ℕ
  pub pool_config : ℕ
  pub local_cache : List Cache
  pub populated_size : ℕ
  pub elt_list : List ℕ
  pub nb_mem_chunks : ℕ
  pub mem_list : List Chunk

-- A cache that is never read: what stands in for an entry out of range.
abbrev pub no_cache : Cache
no_cache = record { size = 0; flushthresh = 0; len = 0; objs = [] }

module _ {store : Store} where
  -- The cache at the index that `default_cache` gives, and the pool with the store and that cache
  -- changed.
  abbrev pub cache_at : Pool store → Option ℕ → Option Cache
  cache_at mp none = none
  cache_at mp (some i) = some (get_or mp.local_cache i no_cache)

  abbrev pub put_back : Pool store → Option ℕ → store.Data → Option Cache → Pool store
  put_back mp (some i) s (some cache) = record mp {
    pool_data = s;
    local_cache = set mp.local_cache i cache;
  }
  put_back mp (some i) s none = record mp { pool_data = s }
  put_back mp none s cache = record mp { pool_data = s }
