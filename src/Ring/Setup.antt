-- ===== src/Ring/Setup.antt =====
-- `rte_ring_get_memsize` and `rte_ring_init` of lib/librte_ring/rte_ring.c.
use rte_demo.Prelude.{
  ℕ, ◌-◌, ◌*◌, ◌%◌, ◌^◌, Bool, not, ◌||◌, List, length, take, none, bit_and, ltb, leb, ◌==◌,
  if◌then◌else◌,
}
use rte_demo.Word.{add32, sub32, add64, align_ceil, align32pow2}
use rte_demo.Ring.Types.{
  einval, enametoolong, Result, ok, err, HeadTail, Ring, is_single, is_multi, ring_sz_mask,
}

-- `RING_F_SP_ENQ`, `RING_F_SC_DEQ`, `RING_F_EXACT_SZ`
abbrev pub sp_enq : ℕ
sp_enq = 1

abbrev pub sc_deq : ℕ
sc_deq = 2

abbrev pub exact_sz : ℕ
exact_sz = 4

-- `flags & f` as a condition
abbrev pub has : ℕ → ℕ → Bool
has flags f = not (bit_and flags f == 0)

-- `sizeof(r->name)`, `RTE_MEMZONE_NAMESIZE`
abbrev pub name_size : ℕ
name_size = 32

-- `sizeof(struct rte_ring)`: both `struct rte_ring_headtail` stand on 128-byte boundaries.
abbrev pub ring_struct_size : ℕ
ring_struct_size = 384

-- The macro `POWEROF2` of rte_ring.c; unlike `rte_is_power_of_2` it accepts 0.
unfoldable pub poweroftwo : ℕ → Bool
poweroftwo x = bit_and (sub32 x 1) x == 0

unfoldable pub rejected : ℕ → Bool
unfolding poweroftwo
rejected count = not (poweroftwo count) || ltb ring_sz_mask count

unfoldable pub get_memsize : ℕ → Result ℕ
unfolding rejected align_ceil
get_memsize count =
    if rejected count
    then err einval
    else ok (align_ceil 64 32 (add64 ring_struct_size (count * 8 % 2 ^ 64)) 64)

abbrev pub no_indices : HeadTail
no_indices = record { head = 0; tail = 0; single = 0 }

-- After the `memset` and the `snprintf`, which keeps at most 31 characters.
unfoldable pub named : Ring → List ℕ → Ring
named r name = record r {
  name = take (name_size - 1) name;
  flags = 0;
  memzone = none;
  size = 0;
  mask = 0;
  capacity = 0;
  prod = no_indices;
  cons = no_indices;
}

-- The flags, and who may enqueue and dequeue.
unfoldable pub flagged : Ring → ℕ → Ring
flagged r flags = record r {
  flags = flags;
  prod = record no_indices { single = if has flags sp_enq then is_single else is_multi };
  cons = record no_indices { single = if has flags sc_deq then is_single else is_multi };
}

-- `prod.head = cons.head = 0; prod.tail = cons.tail = 0;`
unfoldable pub sized : Ring → ℕ → ℕ → ℕ → Ring
sized r size mask capacity = record r {
  size = size;
  mask = mask;
  capacity = capacity;
  prod = record (r.prod) { head = 0; tail = 0 };
  cons = record (r.cons) { head = 0; tail = 0 };
}

unfoldable pub init : Ring → List ℕ → ℕ → ℕ → Result (Unit {0}) × Ring
init r name count flags =
    let ready = flagged (named r name) flags in
    let exact = align32pow2 (add32 count 1) in
    if leb name_size (length name)
    then (err enametoolong, named r name)
    else if has flags exact_sz
    then (ok tt, sized ready exact (sub32 exact 1) count)
    else if rejected count
    then (err einval, ready)
    else (ok tt, sized ready count (sub32 count 1) (sub32 count 1))
