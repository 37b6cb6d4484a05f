-- ===== src/Memzone/Types.antt =====
-- The data of lib/common/include/rte_memzone.h, and the table of zones of struct rte_mem_config.
use rte_demo.Prelude.{
  same_name, ℕ, ◌+◌, List, [], ◌∷◌, Option, none, some, Bool, not, ◌&&◌, ◌==◌, if◌then◌else◌,
}
use rte_demo.Malloc.Types.{Memory}

-- `struct rte_memzone`; `addr` 0 stands for NULL. The physical address is left out.
pub record Zone : Type 0 where
  pub name : List ℕ
  pub addr : ℕ
  pub len : ℕ
  pub hugepage_sz : ℕ
  pub socket_id : ℕ
  pub flags : ℕ
  pub memseg_id : ℕ

-- What `memset` leaves of a zone.
abbrev pub no_zone : Zone
no_zone = record {
  name = [];
  addr = 0;
  len = 0;
  hugepage_sz = 0;
  socket_id = 0;
  flags = 0;
  memseg_id = 0;
}

-- `RTE_MAX_MEMZONE`, `RTE_MEMZONE_NAMESIZE`
abbrev pub max_memzone : ℕ
max_memzone = 2560

abbrev pub memzone_namesize : ℕ
memzone_namesize = 32

-- The part of `struct rte_mem_config` that the zones are in, with the memory that they are cut from.
pub record Config : Type 0 where
  pub memzone_cnt : ℕ
  pub memzone : List Zone
  pub memory : Memory

-- The first index, from `i` on, of a zone that the test accepts.
unfoldable pub first_zone : (Zone → Bool) → List Zone → ℕ → Option ℕ
first_zone test [] i = none
first_zone test (z ∷ zs) i =
    let rest = first_zone test zs (i + 1) in if test z then some i else rest

abbrev pub is_used : Zone → Bool
is_used z = not (z.addr == 0)

-- `memzone_lookup_thread_unsafe`
unfoldable pub lookup : Config → List ℕ → Option ℕ
unfolding first_zone
lookup mcfg name = first_zone (λ z. is_used z && same_name name z.name) mcfg.memzone 0

-- `get_next_free_memzone`
unfoldable pub get_next_free_memzone : Config → Option ℕ
unfolding first_zone
get_next_free_memzone mcfg = first_zone (λ z. z.addr == 0) mcfg.memzone 0
