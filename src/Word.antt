-- ===== src/Word.antt =====
-- Words of the machine: `uint32_t` and 64-bit `size_t` / `uintptr_t` arithmetic with its
-- wrap-around written out, and the macros and functions of lib/common/include/rte_common.h and
-- lib/common/include/rte_memory.h that round and test such words.
pub mod Bits
pub mod Align
pub mod Pow2
pub mod Smear
mod Tests
use rte_demo.Prelude.{ℕ, ◌+◌, ◌-◌, ◌*◌, ◌/◌, ◌%◌, ◌^◌, ◌&&◌, bit_and, bit_or, Bool, not, ◌==◌}

abbrev pub add32 : ℕ → ℕ → ℕ
add32 a b = (a + b) % 2 ^ 32

abbrev pub sub32 : ℕ → ℕ → ℕ
sub32 a b = (a + 2 ^ 32 - b) % 2 ^ 32

abbrev pub add64 : ℕ → ℕ → ℕ
add64 a b = (a + b) % 2 ^ 64

abbrev pub sub64 : ℕ → ℕ → ℕ
sub64 a b = (a + 2 ^ 64 - b) % 2 ^ 64

-- `(align) - 1` is computed in the type of `align`, of `aw` bits, and converted to that of `val`,
-- of `w` bits.
abbrev pub align_mask : ℕ → ℕ → ℕ
align_mask aw align = (align + 2 ^ aw - 1) % 2 ^ aw

-- `RTE_ALIGN_FLOOR(val, align)`: `~m` on `w` bits is `2 ^ w - 1 - m`.
unfoldable pub align_floor : (w aw val align : ℕ) → ℕ
align_floor w aw val align = bit_and val (2 ^ w - 1 - align_mask aw align)

-- `RTE_ALIGN_CEIL(val, align)`: here `(typeof(val))(align) - 1` is computed in the type of `val`.
unfoldable pub align_ceil : (w aw val align : ℕ) → ℕ
unfolding align_floor
align_ceil w aw val align = align_floor w aw ((val + align_mask w align) % 2 ^ w) align

-- `RTE_CACHE_LINE_ROUNDUP(size)` on a `size_t`, with `RTE_CACHE_LINE_SIZE` 64.
unfoldable pub cache_line_roundup : ℕ → ℕ
cache_line_roundup size = 64 * ((size + 64 - 1) % 2 ^ 64 / 64) % 2 ^ 64

-- `n && !(n & (n - 1))`; on the right of `&&` the subtraction does not wrap.
unfoldable pub is_power_of_2 : ℕ → Bool
is_power_of_2 n = not (n == 0) && (bit_and n (sub32 n 1) == 0)

-- `x |= x >> k`
abbrev pub smear : ℕ → ℕ → ℕ
smear k x = bit_or x (x / 2 ^ k)

-- The five assignments of `rte_align32pow2`.
unfoldable pub smear_all32 : ℕ → ℕ
smear_all32 x = smear 16 (smear 8 (smear 4 (smear 2 (smear 1 x))))

unfoldable pub align32pow2 : ℕ → ℕ
align32pow2 x = add32 (smear_all32 (sub32 x 1)) 1

-- The six assignments of `rte_align64pow2`.
unfoldable pub smear_all64 : ℕ → ℕ
unfolding smear_all32
smear_all64 v = smear 32 (smear_all32 v)

unfoldable pub align64pow2 : ℕ → ℕ
align64pow2 v = add64 (smear_all64 (sub64 v 1)) 1
