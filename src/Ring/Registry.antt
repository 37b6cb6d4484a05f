-- ===== src/Ring/Registry.antt =====
-- The rings that have a name: `rte_ring_create`, `rte_ring_free` and `rte_ring_lookup` of
-- lib/librte_ring/rte_ring.c, with the lock of the tail queues held. A ring is known by the index of
-- the memory zone that it stands in, as a zone is by its index; that the blocks of two zones do not
-- overlap rests on the heap.
use rte_demo.Prelude.{
  same_name, ℕ, zero, suc, ◌+◌, ◌*◌, List, [], ◌∷◌, ◌++◌, length, take, Option, none, some, Bool,
  leb, ◌==◌, if◌then◌else◌,
}
use rte_demo.Word.{add32, align32pow2}
use rte_demo.Ring.Types.{Result, ok, err, enoent, enametoolong, enomem, Ring}
use rte_demo.Ring.Transfer.{◌>>=◌}
use rte_demo.Ring.Setup.{has, exact_sz, name_size, ring_struct_size, get_memsize, init}
use rte_demo.Malloc.Types.{Memory, update}
use rte_demo.Malloc.Sockets.{Layer, malloc, free}
use rte_demo.Memzone.Types.{Config}
use rte_demo.Memzone.Reserve.{reserve_aligned, zone_free}
use rte_demo.Tailq.Entries.{Entry, find_entry, remove_entry}
pub mod Listed
pub mod Created
pub mod Freed
mod Tests

-- The table of zones, the rings, and the queue `rte_ring_tailq`.
pub record Registry : Type 0 where
  pub config : Config
  pub ring_at : ℕ → Ring
  pub ring_list : List Entry

-- `RTE_RING_MZ_PREFIX`, "RG_", and `RTE_RING_NAMESIZE`
abbrev pub ring_prefix : List ℕ
ring_prefix = 82 ∷ 71 ∷ 95 ∷ []

abbrev pub ring_namesize : ℕ
ring_namesize = 29

-- `sizeof(struct rte_tailq_entry)`, `__alignof__(struct rte_ring)`
abbrev pub tailq_entry_size : ℕ
tailq_entry_size = 24

abbrev pub ring_alignment : ℕ
ring_alignment = 128

-- What stands in the table of a new ring: nothing clears it.
unfoldable pub words : (ℕ → ℕ) → ℕ → ℕ → List ℕ
words word_at addr zero = []
words word_at addr (suc n) = word_at addr ∷ words word_at (addr + 8) n

-- "for an exact size ring, round up from count to a power of two"
unfoldable pub rounded_count : ℕ → ℕ → ℕ
rounded_count count flags = if has flags exact_sz then align32pow2 (add32 count 1) else count

-- The ring in a zone after `rte_ring_init` and the assignment of the zone.
unfoldable pub new_ring : (ℕ → ℕ) → Ring → (mz : ℕ) → List ℕ → (count flags : ℕ) → Ring
unfolding words rounded_count
new_ring word_at r mz name count flags =
    let table = words word_at ring_struct_size (rounded_count count flags) in
    record ((init (record r { slots = table }) name count flags).1) { memzone = some mz }

abbrev pub with_memory : Registry → Memory → Registry
with_memory reg m = record reg { config = record (reg.config) { memory = m } }

-- After `rte_memzone_reserve_aligned`.
unfoldable pub zone_reserved :
    (ℕ → ℕ)
    → Registry
    → List ℕ
    → (count flags te : ℕ) → Result ℕ × Config
    → Option (Result ℕ × Registry)
unfolding new_ring
zone_reserved word_at reg name count flags te (ok mz, mcfg) = some (
  ok mz,
  record {
    config = mcfg;
    ring_at = update reg.ring_at mz (new_ring word_at (reg.ring_at mz) mz name count flags);
    ring_list = reg.ring_list ++ (record { te = te; item = mz } ∷ []);
  },
)
zone_reserved word_at reg name count flags te (err e, mcfg) = do
  m ← free mcfg.memory te
  some (err e, with_memory (record reg { config = mcfg }) m)

-- After `rte_zmalloc` of the entry.
unfoldable pub entry_allocated :
    Layer
    → (ℕ → ℕ)
    → Registry
    → List ℕ
    → (count bytes socket_id flags : ℕ) → Memory × ℕ
    → Option (Result ℕ × Registry)
unfolding zone_reserved
entry_allocated layer word_at reg name count bytes socket_id flags (m, te) =
    let mcfg : Config = record (reg.config) { memory = m } in
    if te == 0
    then some (err enomem, with_memory reg m)
    else zone_reserved word_at reg name count flags te
        (reserve_aligned layer mcfg (ring_prefix ++ name) bytes socket_id 0 ring_alignment)

-- After `rte_ring_get_memsize` and the `snprintf` of the zone's name.
unfoldable pub create_sized :
    Layer
    → (ℕ → ℕ)
    → Registry
    → List ℕ
    → (count socket_id flags : ℕ) → Result ℕ
    → Option (Result ℕ × Registry)
unfolding entry_allocated
create_sized layer word_at reg name count socket_id flags (err e) = some (err e, reg)
create_sized layer word_at reg name count socket_id flags (ok bytes) =
    if leb name_size (length (ring_prefix ++ name))
    then some (err enametoolong, reg)
    else entry_allocated layer word_at reg name count bytes socket_id flags
        (malloc layer reg.config.memory tailq_entry_size 0)

-- `rte_ring_create`: the ring or the error, and the registry; `none` where the release of the entry
-- panics. `word_at` is what the memory of the zone holds at an offset.
unfoldable pub ring_create :
    Layer → (ℕ → ℕ) → Registry → List ℕ → (count socket_id flags : ℕ) → Option (Result ℕ × Registry)
unfolding create_sized
ring_create layer word_at reg name count socket_id flags =
    create_sized layer word_at reg name count socket_id flags
      (get_memsize (rounded_count count flags))

-- `strncmp(name, r->name, RTE_RING_NAMESIZE) == 0` for the ring of an entry.
abbrev pub is_named : Registry → List ℕ → Entry → Bool
is_named reg name e =
    same_name (take ring_namesize name) (take ring_namesize (reg.ring_at e.item).name)

abbrev pub ring_of : Option Entry → Result ℕ
ring_of none = err enoent
ring_of (some e) = ok e.item

-- `rte_ring_lookup`
unfoldable pub ring_lookup : Registry → List ℕ → Result ℕ
ring_lookup reg name = ring_of (find_entry (is_named reg name) reg.ring_list)

-- `rte_ring_free` after the zone is released.
abbrev pub entry_freed : Registry → Option Entry → Option Registry
entry_freed reg none = some reg
entry_freed reg (some e) = do
  m ← free reg.config.memory e.te
  some (with_memory (record reg { ring_list = remove_entry e.item reg.ring_list }) m)

abbrev pub zone_freed : Registry → (r : ℕ) → Result (Unit {0}) × Config → Option Registry
zone_freed reg r (err e, mcfg) = some (record reg { config = mcfg })
zone_freed reg r (ok u, mcfg) =
    entry_freed (record reg { config = mcfg }) (find_entry (λ e. e.item == r) reg.ring_list)

abbrev pub free_zone : Registry → (r : ℕ) → Option ℕ → Option Registry
free_zone reg r none = some reg
free_zone reg r (some mz) = do ret ← zone_free reg.config mz; zone_freed reg r ret

-- `rte_ring_free`, `none` where it panics; the argument is `none` for NULL.
unfoldable pub ring_free : Registry → Option ℕ → Option Registry
ring_free reg none = some reg
ring_free reg (some r) = free_zone reg r (reg.ring_at r).memzone
