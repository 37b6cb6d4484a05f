-- ===== src/Word/Pow2.antt =====
-- `rte_is_power_of_2` decides, and `rte_align32pow2` computes, powers of two.
use mathlib.Core.Path.{ap₂}
use mathlib.Core.WellFounded
use native.Mathlib.Nat.{pow-suc}
use rte_demo.Prelude.{
  ℕ, zero, suc, ◌-◌, ◌*◌, ◌/◌, ◌%◌, ◌^◌, ◌<◌, bit_and, ◌≡◌, refl, ap, ◌↔◌, true, arith, lt_wf,
  dec_lt,
}
use rte_demo.Word.{is_power_of_2, sub32}
use rte_demo.Word.Bits.{bit_and_halves}
use rte_demo.Word.Align.{two_pow_pos}

-- The number is some power of two.
abbrev pub IsPow2 : ℕ → Type 0
IsPow2 n = (k : ℕ) × (n ≡ 2 ^ k)

bit_and_self : (n : ℕ) → bit_and n n ≡ n
bit_and_self n = WellFounded.induction lt_wf {C = λ n. bit_and n n ≡ n} n descend
  where
    descend : (n : ℕ) → ((m : ℕ) → m < n → bit_and m m ≡ m) → bit_and n n ≡ n
    descend zero ih = refl
    descend (suc n) ih = omega (arith, bit_and_halves (suc n) (suc n), ih (suc n / 2) (omega arith))

odd_half : (n : ℕ) → 0 < n % 2 → (n - 1) / 2 ≡ n / 2
odd_half n h = omega arith

even_half : (n : ℕ) → 0 < n → ¬ (0 < n % 2) → (n - 1) / 2 ≡ n / 2 - 1
even_half n p h = omega arith

whole_half : (m : ℕ) → m * 2 / 2 ≡ m
whole_half m = omega arith

pred_half : (m : ℕ) → 0 < m → (m * 2 - 1) / 2 ≡ m - 1
pred_half m p = omega arith

double : (n : ℕ) → ¬ (0 < n % 2) → IsPow2 (n / 2) → IsPow2 n
double n even (k, e) = (suc k, omega (arith, pow-suc 2 k))

sub32-one : (n : ℕ) → 0 < n → n < 2 ^ 32 → sub32 n 1 ≡ n - 1
sub32-one n p h = omega arith

zero_of_test : (n : ℕ) → n < 2 ^ 32 → is_power_of_2 n ≡ true → bit_and n (n - 1) ≡ 0
unfolding is_power_of_2
zero_of_test n h e = ground (arith, ap (bit_and n) (sub32-one n (ground arith) h))

pow2_test : (n : ℕ) → n < 2 ^ 32 → 0 < n → bit_and n (n - 1) ≡ 0 → is_power_of_2 n ≡ true
unfolding is_power_of_2
pow2_test n h p e = ground (arith, ap (bit_and n) (sub32-one n p h))

-- `n & (n - 1)` vanishes only at a power of two.
pub IsPow2-bit_and : (n : ℕ) → 0 < n → bit_and n (n - 1) ≡ 0 → IsPow2 n
IsPow2-bit_and n =
    WellFounded.induction lt_wf {C = λ n. 0 < n → bit_and n (n - 1) ≡ 0 → IsPow2 n} n descend
  where
    descend :
        (n : ℕ)
        → ((m : ℕ) → m < n → 0 < m → bit_and m (m - 1) ≡ 0 → IsPow2 m)
        → 0 < n
        → bit_and n (n - 1) ≡ 0
        → IsPow2 n
    descend n ih p e = elim (dec_lt 0 (n % 2)) [
      | yes odd ↦ (
        0,
        omega (
          arith,
          bit_and_halves n (n - 1),
          ap (bit_and (n / 2)) (odd_half n odd),
          bit_and_self (n / 2),
        ),
      )
      | no even ↦ double n even (
          ih (n / 2) (omega arith) (omega arith)
            (omega (arith, bit_and_halves n (n - 1), ap (bit_and (n / 2)) (even_half n p even))))
    ]

pub bit_and-pow2 : (k : ℕ) → bit_and (2 ^ k) (2 ^ k - 1) ≡ 0
bit_and-pow2 zero = refl
bit_and-pow2 (suc k) = rw (pow-suc 2 k) (
    omega (
      arith,
      two_pow_pos k,
      bit_and-pow2 k,
      bit_and_halves (2 ^ k * 2) (2 ^ k * 2 - 1),
      ap₂ bit_and (whole_half (2 ^ k)) (pred_half (2 ^ k) (two_pow_pos k)),
    ))

-- `rte_is_power_of_2` returns true exactly at the powers of two.
pub is_power_of_2-IsPow2 : (n : ℕ) → n < 2 ^ 32 → (is_power_of_2 n ≡ true) ↔ IsPow2 n
unfolding is_power_of_2
is_power_of_2-IsPow2 n h = (
  λ e. IsPow2-bit_and n (ground arith) (zero_of_test n h e),
  λ (k, e). pow2_test n h (omega (arith, e, two_pow_pos k)) (rw e (bit_and-pow2 k)),
)
