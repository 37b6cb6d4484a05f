-- ===== src/Word/Align.antt =====
-- `RTE_ALIGN_FLOOR` and `RTE_ALIGN_CEIL` round to a multiple of a power of two.
use mathlib.Core.Path.{ap₂}
use native.Mathlib.Nat.{
  div-add-mod', div-lt_iff_lt-mul, pow-suc, one-le-pow, mod-lt, mod-eq_of_lt, pow-le-pow_right,
  add-mod_right, add-zero, add-suc, mul-mod_left, suc-mul,
}
use rte_demo.Prelude.{
  ℕ, zero, suc, ◌+◌, ◌-◌, ◌*◌, ◌/◌, ◌%◌, ◌^◌, ◌≤◌, ◌<◌, bit_and, ◌≡◌, sym, ap, ◌∙◌, ◌≡⟨◌⟩◌, ◌∎,
  arith,
}
use rte_demo.Word.{align_mask, align_floor, align_ceil, cache_line_roundup}
use rte_demo.Word.Bits.{bit_and_halves, bit_and_ones}

shifted :
    (n q r m : ℕ)
    → bit_and (q * n + r / 2) (m * n) ≡ bit_and q m * n
    → bit_and (q * (n * 2) + r) (m * (n * 2)) ≡ bit_and q m * (n * 2)
shifted n q r m e =
    rw (bit_and_halves (q * (n * 2) + r) (m * (n * 2)), halved, halved_mask, even, e) (omega arith)
  where
    halved : (q * (n * 2) + r) / 2 ≡ q * n + r / 2
    halved = omega arith

    halved_mask : m * (n * 2) / 2 ≡ m * n
    halved_mask = omega arith

    even : m * (n * 2) % 2 ≡ 0
    even = omega arith

-- A mask whose low `k` bits are clear sees only the bits above.
pub bit_and_high :
    (k q r m : ℕ) → r < 2 ^ k → bit_and (q * 2 ^ k + r) (m * 2 ^ k) ≡ bit_and q m * 2 ^ k
bit_and_high zero q zero m h = ap (λ (t : ℕ). t) (omega (arith, ap₂ bit_and (left q) (right m)))
  where
    left : (q : ℕ) → q * 1 + 0 ≡ q
    left q = omega arith

    right : (m : ℕ) → m * 1 ≡ m
    right m = omega arith
bit_and_high zero q (suc r) m h = absurd (omega arith)
bit_and_high (suc k) q r m h =
    rw (pow-suc 2 k)
      (shifted (2 ^ k) q r m (bit_and_high k q (r / 2) m (omega (arith, pow-suc 2 k))))

-- `2 ^ (k + d) - 2 ^ k` as a mask clears the low `k` bits.
pub bit_and_clear :
    (k d v : ℕ) → v < 2 ^ d * 2 ^ k → bit_and v ((2 ^ d - 1) * 2 ^ k) ≡ v - v % 2 ^ k
bit_and_clear k d v h =
    bit_and v ((2 ^ d - 1) * 2 ^ k)
    ≡⟨ ap (λ (t : ℕ). bit_and t ((2 ^ d - 1) * 2 ^ k)) (sym (div-add-mod' v (2 ^ k))) ⟩
      bit_and (v / 2 ^ k * 2 ^ k + v % 2 ^ k) ((2 ^ d - 1) * 2 ^ k)
    ≡⟨ bit_and_high k (v / 2 ^ k) (v % 2 ^ k) (2 ^ d - 1)
        (mod-lt v (one-le-pow k 2 (omega arith))) ⟩
      bit_and (v / 2 ^ k) (2 ^ d - 1) * 2 ^ k
    ≡⟨ ap (λ (t : ℕ). t * 2 ^ k) (bit_and_ones d (v / 2 ^ k) ∙ mod-eq_of_lt small) ⟩
      v / 2 ^ k * 2 ^ k
    ≡⟨ omega (arith, div-add-mod' v (2 ^ k)) ⟩ v - v % 2 ^ k ∎
  where
    small : v / 2 ^ k < 2 ^ d
    small = (div-lt_iff_lt-mul (one-le-pow k 2 (omega arith))).1 h

pub two_pow_add : (d k : ℕ) → 2 ^ (d + k) ≡ 2 ^ d * 2 ^ k
two_pow_add d zero = omega (arith, ap (λ (t : ℕ). 2 ^ t) (add-zero d))
two_pow_add d (suc k) = omega (
  arith,
  pow-suc 2 k,
  two_pow_add d k,
  pow-suc 2 (d + k),
  ap (λ (t : ℕ). 2 ^ t) (add-suc d k),
  ap (λ (t : ℕ). 2 ^ d * t) (pow-suc 2 k),
)

pub two_pow_pos : (k : ℕ) → 0 < 2 ^ k
two_pow_pos k = one-le-pow k 2 (omega arith)

align_mask-pow : (aw k : ℕ) → k < aw → align_mask aw (2 ^ k) ≡ 2 ^ k - 1
align_mask-pow aw k h =
    folded (2 ^ aw) (2 ^ k) (two_pow_pos k) (pow-le-pow_right (omega arith) (omega arith))
  where
    folded : (m a : ℕ) → 0 < a → a ≤ m → (a + m - 1) % m ≡ a - 1
    folded m a p h =
        ground (arith, add-mod_right (a - 1) m, mod-eq_of_lt {n = a - 1} {m = m}, split)
      where
        split : a + m - 1 ≡ a - 1 + m
        split = omega arith

complement : (d k : ℕ) → 0 < d → 0 < k → d * k - 1 - (k - 1) ≡ (d - 1) * k
complement zero k p q = elim p [ ]
complement (suc d) k p q = rw (suc-mul, one-sub d) (omega arith)
  where
    one-sub : (d : ℕ) → suc d - 1 ≡ d
    one-sub d = omega arith

-- Rounding a value down to a power of two takes off its remainder.
pub align_floor_lem :
    (w aw k v : ℕ) → k < aw → aw ≤ w → v < 2 ^ w → align_floor w aw v (2 ^ k) ≡ v - v % 2 ^ k
unfolding align_floor
align_floor_lem w aw k v hk hw hv =
    ap (bit_and v) mask ∙ bit_and_clear k (w - k) v (rw (← split) hv)
  where
    whole : w - k + k ≡ w
    whole = omega arith

    split : 2 ^ w ≡ 2 ^ (w - k) * 2 ^ k
    split = ap (λ (t : ℕ). 2 ^ t) (sym whole) ∙ two_pow_add (w - k) k

    mask : 2 ^ w - 1 - align_mask aw (2 ^ k) ≡ (2 ^ (w - k) - 1) * 2 ^ k
    mask =
        ap (λ (t : ℕ). 2 ^ w - 1 - t) (align_mask-pow aw k hk)
        ∙ ap (λ (t : ℕ). t - 1 - (2 ^ k - 1)) split
        ∙ complement (2 ^ (w - k)) (2 ^ k) (two_pow_pos (w - k)) (two_pow_pos k)

sub-mod-mod : (n m : ℕ) → 0 < m → (n - n % m) % m ≡ 0
sub-mod-mod n m h = omega (arith, ap (λ (t : ℕ). t % m) whole ∙ mul-mod_left (n / m) m)
  where
    whole : n - n % m ≡ n / m * m
    whole = omega (arith, div-add-mod' n m)

-- Rounding up, where the sum does not wrap, gives a multiple of the alignment that is not below
-- the value and less than one alignment above it.
pub align_ceil_lem :
    (w aw k v : ℕ)
    → k < aw
    → aw ≤ w
    → v + 2 ^ k ≤ 2 ^ w
    → (align_ceil w aw v (2 ^ k) % 2 ^ k ≡ 0)
      × (v ≤ align_ceil w aw v (2 ^ k))
      × (align_ceil w aw v (2 ^ k) < v + 2 ^ k)
unfolding align_ceil
align_ceil_lem w aw k v hk hw hv =
    rw (value) (sub-mod-mod sum (2 ^ k) pos, omega (arith, pos, mod-lt sum pos), omega (arith, pos))
  where
    pos : 0 < 2 ^ k
    pos = two_pow_pos k

    sum : ℕ
    sum = v + (2 ^ k - 1)

    wide : (v + align_mask w (2 ^ k)) % 2 ^ w ≡ sum
    wide =
        ap (λ (t : ℕ). (v + t) % 2 ^ w) (align_mask-pow w k (omega arith))
        ∙ mod-eq_of_lt (omega (arith, pos))

    value : align_ceil w aw v (2 ^ k) ≡ sum - sum % 2 ^ k
    value =
        ap (λ (t : ℕ). align_floor w aw t (2 ^ k)) wide
        ∙ align_floor_lem w aw k sum hk hw (omega (arith, pos))

-- Rounding a size up to cache lines, where the sum does not wrap, gives the least multiple of 64
-- that is not below it.
pub cache_line_roundup_lem :
    (size : ℕ)
    → size + 63 < 2 ^ 64
    → (cache_line_roundup size % 64 ≡ 0)
      × (size ≤ cache_line_roundup size)
      × (cache_line_roundup size < size + 64)
unfolding cache_line_roundup
cache_line_roundup_lem size h = omega arith
