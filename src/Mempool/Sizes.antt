-- ===== src/Mempool/Sizes.antt =====
-- The sizes of objects and of the memory for them: the first part of
-- lib/librte_mempool/rte_mempool.c. The numbers of memory channels and of ranks are those of the
-- configuration of the layer.
use rte_demo.Prelude.{
  ℕ, zero, suc, ◌+◌, ◌-◌, ◌*◌, ◌/◌, ◌%◌, ◌^◌, Option, none, some, bit_and, ltb, ◌==◌, if◌then◌else◌,
}
use rte_demo.Word.{add32, sub32, add64, sub64, align_ceil}
use rte_demo.Ring.Transfer.{◌>>=◌}
use rte_demo.Ring.Setup.{has}
pub mod Gcd
pub mod Spread
pub mod Objects

-- `MEMPOOL_F_NO_SPREAD`, `MEMPOOL_F_NO_CACHE_ALIGN`
abbrev pub no_spread : ℕ
no_spread = 1

abbrev pub no_cache_align : ℕ
no_cache_align = 2

-- `sizeof(struct rte_mempool_objhdr)`: two pointers, no cookie.
abbrev pub objhdr_size : ℕ
objhdr_size = 16

-- `while (b != 0)` on a number of rounds; `none` where they do not suffice.
unfoldable pub gcd_loop : (rounds a b : ℕ) → Option ℕ
gcd_loop zero a b = none
gcd_loop (suc rounds) a zero = some a
gcd_loop (suc rounds) a (suc b) = gcd_loop rounds (suc b) (a % suc b)

-- `get_gcd`; the remainders get smaller, so `b + 1` rounds are enough.
unfoldable pub get_gcd : ℕ → ℕ → Option ℕ
unfolding gcd_loop
get_gcd zero b = some b
get_gcd (suc a) zero = some (suc a)
get_gcd (suc a) (suc b) =
    if ltb a b
    then gcd_loop (suc (suc a)) (suc b) (suc a)
    else gcd_loop (suc (suc b)) (suc a) (suc b)

-- The loop of `optimize_object_size` on a number of rounds.
unfoldable pub spread_loop : (rounds new_obj_size ways : ℕ) → Option ℕ
unfolding get_gcd
spread_loop zero new_obj_size ways = none
spread_loop (suc rounds) new_obj_size ways = do
  let rest = spread_loop rounds (add32 new_obj_size 1) ways
  gcd ← get_gcd new_obj_size ways
  if gcd == 1 then some new_obj_size else rest

abbrev pub default_to : ℕ → ℕ → ℕ
default_to n other = if n == 0 then other else n

-- `optimize_object_size`
unfoldable pub optimize_object_size : (rounds nchannel nrank obj_size : ℕ) → Option ℕ
unfolding spread_loop
optimize_object_size rounds nchannel nrank obj_size =
    let ways = default_to nrank 1 * default_to nchannel 4 % 2 ^ 32 in
    do
      new_obj_size ← spread_loop rounds (add32 obj_size 63 / 64) ways
      some (new_obj_size * 64 % 2 ^ 32)

-- `struct rte_mempool_objsz`
pub record ObjSize : Type 0 where
  pub elt_size : ℕ
  pub header_size : ℕ
  pub trailer_size : ℕ
  pub total_size : ℕ

-- `rte_mempool_calc_obj_size`: first the header, the element and the trailer that fills the last
-- cache line, then the trailer that spreads the objects, then the sum.
unfoldable pub header_of : ℕ → ℕ
header_of flags = if has flags no_cache_align then objhdr_size else align_ceil 32 32 objhdr_size 64

unfoldable pub elt_of : ℕ → ℕ
elt_of elt_size = align_ceil 32 64 elt_size 8

unfoldable pub trailer_of : ℕ → ℕ → ℕ
trailer_of elt_size flags =
    if has flags no_cache_align
    then 0
    else bit_and (64 - bit_and (add32 (header_of flags) (elt_of elt_size)) 63) 63

unfoldable pub summed : (header elt trailer : ℕ) → ObjSize
summed header elt trailer = record {
  elt_size = elt;
  header_size = header;
  trailer_size = trailer;
  total_size = add32 (add32 header elt) trailer;
}

unfoldable pub calc_obj_size : (rounds nchannel nrank elt_size flags : ℕ) → Option ObjSize
calc_obj_size rounds nchannel nrank elt_size flags =
    let header = header_of flags in
    let elt = elt_of elt_size in
    let trailer = trailer_of elt_size flags in
    let spread = do
      new_size ← optimize_object_size rounds nchannel nrank (add32 (add32 header elt) trailer)
      some (summed header elt (sub32 (sub32 new_size header) elt))
    in if has flags no_spread then some (summed header elt trailer) else spread

-- `rte_mempool_xmem_size`; `pg_shift` is less than 64.
unfoldable pub xmem_size : (elt_num total_elt_sz pg_shift : ℕ) → ℕ
xmem_size elt_num total_elt_sz pg_shift =
    let pg_sz = 2 ^ pg_shift in
    let obj_per_page = pg_sz / total_elt_sz in
    let pg_num = sub64 (add64 elt_num obj_per_page) 1 / obj_per_page in
    if total_elt_sz == 0
    then 0
    else if pg_shift == 0
    then total_elt_sz * elt_num % 2 ^ 64
    else if obj_per_page == 0
    then align_ceil 64 64 total_elt_sz pg_sz * elt_num % 2 ^ 64
    else pg_num * 2 ^ pg_shift % 2 ^ 64
