-- ===== src/Word/Smear.antt =====
-- `rte_align32pow2` and `rte_align64pow2` fill a word with ones below its highest one.
use mathlib.Core.WellFounded
use native.Mathlib.Nat.{
  pow-suc, div-add-mod', pow-le-pow_right, mod-lt, sub-eq-zero_of_le, le-div_iff_mul-le,
  div-lt_iff_lt-mul, le_trans, add-le-add, le_of_eq, add-mul-div_right, div-le_self, le_refl,
  mul-le-mul_right, sub-add-eq,
}
use rte_demo.Prelude.{
  ℕ, zero, suc, ◌+◌, ◌-◌, ◌*◌, ◌/◌, ◌%◌, ◌^◌, ◌≤◌, ◌<◌, bit_or, ◌≡◌, refl, sym, ap, ◌∙◌, arith,
  lt_wf, dec_lt, dec_le,
}
use rte_demo.Word.{smear_all32, align32pow2, smear}
use rte_demo.Word.Bits.{bit_or_halves, bit_or-lt, le-bit_or_right, bit_or_fields}
use rte_demo.Word.Align.{two_pow_pos, two_pow_add}

le-bit_or_left : (a b : ℕ) → a ≤ bit_or a b
le-bit_or_left a b = WellFounded.induction lt_wf {C = λ n. (m : ℕ) → n ≤ bit_or n m} a descend b
  where
    descend : (n : ℕ) → ((k : ℕ) → k < n → (m : ℕ) → k ≤ bit_or k m) → (m : ℕ) → n ≤ bit_or n m
    descend zero ih m = omega arith
    descend (suc n) ih m =
        omega (arith, bit_or_halves (suc n) m, ih (suc n / 2) (omega arith) (m / 2))

-- The `m` highest of the `k` digits of `x` are ones.
pub record Filled (k m x : ℕ) : Type 0 where
  pub fits : x < 2 ^ k
  pub ones : 2 ^ k ≤ x + 2 ^ (k - m)

quotient-ge : (a b c x : ℕ) → 0 < b → a * b ≤ x + c * b → a ≤ x / b + c
quotient-ge a b c x p h = le_trans ((le-div_iff_mul-le p).1 h) (le_of_eq (add-mul-div_right x c p))

pub two_pow_mono : (a b : ℕ) → a ≤ b → 2 ^ a ≤ 2 ^ b
two_pow_mono a b h = pow-le-pow_right (omega arith) h

pub two_pow_split : (k m : ℕ) → m ≤ k → 2 ^ k ≡ 2 ^ (k - m) * 2 ^ m
two_pow_split k m h = ap (λ (t : ℕ). 2 ^ t) whole ∙ two_pow_add (k - m) m
  where
    whole : k ≡ k - m + m
    whole = omega arith

two_pow_sub-le : (k m : ℕ) → 2 ^ k ≤ 2 ^ (k - m) * 2 ^ m
two_pow_sub-le k m =
    le_trans (two_pow_mono k (k - m + m) (omega arith)) (le_of_eq (two_pow_add (k - m) m))

shift-lt : (k m x : ℕ) → x < 2 ^ k → x / 2 ^ m < 2 ^ k
shift-lt k m x h = omega (arith, div-le_self x (2 ^ m))

-- Of a word below `m * n` the quotient by `n` and, under it, the quotient by `m`.
joined-ge : (m n c x y : ℕ) → m ≤ x / n + 1 → n ≤ x / m + c → x / n * n + x / m ≤ y → n * m ≤ y + c
joined-ge m n c x y p q r = omega (arith, mul-le-mul_right n p)

module _ (k m x : ℕ) (long : m ≤ k) (f : Filled k m x) where
  below : x / 2 ^ m < 2 ^ (k - m)
  below = (div-lt_iff_lt-mul (two_pow_pos m)).1 (rw (← two_pow_split k m long) f.fits)

  -- The shifted copy falls into the digits below the `m` highest.
  smear_fields : x / 2 ^ (k - m) * 2 ^ (k - m) + x / 2 ^ m ≤ smear m x
  smear_fields =
      rw (← joined) (add-le-add (le_refl _) (le-bit_or_right (x % 2 ^ (k - m)) (x / 2 ^ m)))
    where
      joined : x / 2 ^ (k - m) * 2 ^ (k - m) + bit_or (x % 2 ^ (k - m)) (x / 2 ^ m) ≡ smear m x
      joined =
          sym (
            bit_or_fields (k - m) (x / 2 ^ (k - m)) (x % 2 ^ (k - m)) (x / 2 ^ m)
              (mod-lt x (two_pow_pos (k - m))) below)
          ∙ ap (λ (t : ℕ). bit_or t (x / 2 ^ m)) (div-add-mod' x (2 ^ (k - m)))

  high_ones : 2 ^ m ≤ x / 2 ^ (k - m) + 1
  high_ones =
      quotient-ge (2 ^ m) (2 ^ (k - m)) 1 x (two_pow_pos (k - m))
        (omega (arith, f.ones, two_pow_split k m long))

  next_ones : 2 ^ (k - m) ≤ x / 2 ^ m + 2 ^ (k - (m + m))
  next_ones = quotient-ge (2 ^ (k - m)) (2 ^ m) (2 ^ (k - (m + m))) x (two_pow_pos m) (
      omega (
        arith,
        f.ones,
        two_pow_split k m long,
        two_pow_sub-le (k - m) m,
        sub-add-eq k m m,
        regrouped,
      ))
    where
      regrouped : 2 ^ (k - (m + m)) * 2 ^ m ≡ 2 ^ (k - m - m) * 2 ^ m
      regrouped = ap (λ (t : ℕ). 2 ^ t * 2 ^ m) (sub-add-eq k m m)

  smear_long : 2 ^ k ≤ smear m x + 2 ^ (k - (m + m))
  smear_long = rw (two_pow_split k m long) (
      joined-ge (2 ^ m) (2 ^ (k - m)) (2 ^ (k - (m + m))) x (smear m x) high_ones next_ones
        smear_fields)

smear-Filled : (k m x : ℕ) → Filled k m x → Filled k (m + m) (smear m x)
smear-Filled k m x f = elim (dec_le k m) [
  | yes short ↦ record {
    fits = bit_or-lt k x (x / 2 ^ m) f.fits (shift-lt k m x f.fits);
    ones = le_trans f.ones (
        add-le-add (le-bit_or_left x (x / 2 ^ m))
          (two_pow_mono (k - m) (k - (m + m)) (omega arith)));
  }
  | no long ↦ record {
    fits = bit_or-lt k x (x / 2 ^ m) f.fits (shift-lt k m x f.fits);
    ones = smear_long k m x (omega arith) f;
  }
]

-- The place of the highest one of a word.
pub highest : (x : ℕ) → 0 < x → (k : ℕ) × (2 ^ k ≤ x) × (x < 2 ^ suc k)
highest x =
    WellFounded.induction lt_wf {C = λ n. 0 < n → (k : ℕ) × (2 ^ k ≤ n) × (n < 2 ^ suc k)} x descend
  where
    descend :
        (n : ℕ)
        → ((m : ℕ) → m < n → 0 < m → (k : ℕ) × (2 ^ k ≤ m) × (m < 2 ^ suc k))
        → 0 < n
        → (k : ℕ) × (2 ^ k ≤ n) × (n < 2 ^ suc k)
    descend n ih p = elim (dec_lt n 2) [
      | yes small ↦ (0, omega arith, omega arith)
      | no large ↦
          let (k, lo, hi) = ih (n / 2) (omega arith) (omega arith) in
          (suc k, omega (arith, pow-suc 2 k), omega (arith, pow-suc 2 k, pow-suc 2 (suc k)))
    ]

pub two_pow_bound : (k w x : ℕ) → 2 ^ k ≤ x → x < 2 ^ w → k < w
two_pow_bound k w x lo hi = elim (dec_lt k w) [
  | yes h ↦ h
  | no h ↦ absurd (omega (arith, two_pow_mono w k (omega arith)))
]

pred_suc : (k : ℕ) → suc k - 1 ≡ k
pred_suc k = omega arith

filled32 : (k x : ℕ) → 2 ^ k ≤ x → x < 2 ^ suc k → Filled (suc k) 32 (smear_all32 x)
unfolding smear_all32
filled32 k x lo hi = smear-Filled (suc k) 16 _ (
    smear-Filled (suc k) 8 _
      (smear-Filled (suc k) 4 _ (smear-Filled (suc k) 2 _ (smear-Filled (suc k) 1 x start))))
  where
    start : Filled (suc k) 1 x
    start = record { fits = hi; ones = omega (arith, pow-suc 2 k, one) }
      where
        one : 2 ^ (suc k - 1) ≡ 2 ^ k
        one = rw (pred_suc k)

smear_all32_lem : (k x : ℕ) → k < 32 → 2 ^ k ≤ x → x < 2 ^ suc k → smear_all32 x + 1 ≡ 2 ^ suc k
smear_all32_lem k x h lo hi = omega (arith, full.fits, full.ones, ends)
  where
    full : Filled (suc k) 32 (smear_all32 x)
    full = filled32 k x lo hi

    ends : 2 ^ (suc k - 32) ≡ 1
    ends = rw (sub-eq-zero_of_le {n = suc k} {m = 32} h)

align32pow2_body : (x : ℕ) → 0 < x → x < 2 ^ 32 → align32pow2 x ≡ (smear_all32 (x - 1) + 1) % 2 ^ 32
unfolding align32pow2
align32pow2_body x p h = ap (λ (t : ℕ). (smear_all32 t + 1) % 2 ^ 32) (omega arith)

one_lem : align32pow2 1 ≡ 1
unfolding align32pow2 smear_all32
one_lem = refl

-- For `0 < x ≤ 2 ^ 31` the function returns the least power of two that is not below `x`.
pub align32pow2_least :
    (x : ℕ) → 0 < x → x ≤ 2 ^ 31 → (k : ℕ) × (align32pow2 x ≡ 2 ^ k) × (x ≤ 2 ^ k) × (2 ^ k < 2 * x)
align32pow2_least x p h = elim (dec_lt 1 x) [
  | yes more ↦
      let (k, lo, hi) = highest (x - 1) (omega arith) in
      let small : k < 31 = two_pow_bound k 31 (x - 1) lo (omega arith) in
      (
        suc k,
        omega (
          arith,
          align32pow2_body x p (omega arith),
          smear_all32_lem k (x - 1) (omega arith) lo hi,
          two_pow_mono (suc k) 31 small,
        ),
        omega arith,
        omega (arith, pow-suc 2 k),
      )
  | no one ↦ let e : x ≡ 1 = omega arith in (0, rw e one_lem, omega arith, omega arith)
]

-- Above `2 ^ 31` the result wraps to 0.
pub align32pow2_wraps : (x : ℕ) → x < 2 ^ 32 → 2 ^ 31 < x → align32pow2 x ≡ 0
align32pow2_wraps x h p = omega (
  arith,
  align32pow2_body x (omega arith) h,
  smear_all32_lem 31 (x - 1) (omega arith) (omega arith) (omega arith),
)
