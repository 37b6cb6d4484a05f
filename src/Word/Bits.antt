-- ===== src/Word/Bits.antt =====
-- Laws of `&` and `|` at every width, from the binary digits that the native operations mean.
use Prim.Native.Nat.{digits, bitwise, bit_and-bitwise, bit_or-bitwise}
use mathlib.Core.WellFounded
use native.Mathlib.Nat.{le_refl, pow-suc, one-le-pow, div-add-mod, div-div-eq-div-mul, mul_comm}
use rte_demo.Prelude.{
  ℕ, zero, suc, ◌+◌, ◌-◌, ◌*◌, ◌/◌, ◌%◌, ◌^◌, ◌≤◌, ◌<◌, min, max, bit_and, bit_or, ◌≡◌, refl, ap,
  ◌∙◌, arith, lt_wf,
}

-- Enough fuel gives one value.
module _ (z : ℕ → ℕ) (f : ℕ → ℕ → ℕ) where
  digits_enough : (n m a b : ℕ) → a ≤ n → a ≤ m → digits z f n a b ≡ digits z f m a b
  digits_enough zero zero a b p q = refl
  digits_enough zero (suc m) zero b p q = refl
  digits_enough zero (suc m) (suc a) b p q = absurd (omega arith)
  digits_enough (suc n) zero zero b p q = refl
  digits_enough (suc n) zero (suc a) b p q = absurd (omega arith)
  digits_enough (suc n) (suc m) zero b p q = refl
  digits_enough (suc n) (suc m) (suc a) b p q =
      rw (digits_enough n m (suc a / 2) (b / 2) (omega arith) (omega arith))

  bitwise_halves :
      (a b : ℕ)
      → bitwise z f (suc a) b ≡ bitwise z f (suc a / 2) (b / 2) * 2 + f (suc a % 2) (b % 2)
  bitwise_halves a b =
      omega (arith, digits_enough a (suc a / 2) (suc a / 2) (b / 2) (omega arith) (le_refl _))

pub bit_or_halves : (a b : ℕ) → bit_or a b ≡ bit_or (a / 2) (b / 2) * 2 + max (a % 2) (b % 2)
bit_or_halves zero b = simp bit_or-bitwise (omega arith)
bit_or_halves (suc a) b = simp bit_or-bitwise (bitwise_halves (λ y. y) max a b)

pub bit_and_halves : (a b : ℕ) → bit_and a b ≡ bit_and (a / 2) (b / 2) * 2 + min (a % 2) (b % 2)
bit_and_halves zero b = simp bit_and-bitwise (omega arith)
bit_and_halves (suc a) b = simp bit_and-bitwise (bitwise_halves (λ y. 0) min a b)

pub bit_and-zero : (a : ℕ) → bit_and a 0 ≡ 0
bit_and-zero a = WellFounded.induction lt_wf {C = λ n. bit_and n 0 ≡ 0} a descend
  where
    descend : (n : ℕ) → ((m : ℕ) → m < n → bit_and m 0 ≡ 0) → bit_and n 0 ≡ 0
    descend zero ih = refl
    descend (suc n) ih = omega (arith, bit_and_halves (suc n) 0, ih (suc n / 2) (omega arith))

zero-bit_and : (b : ℕ) → bit_and 0 b ≡ 0
zero-bit_and b = bit_and-bitwise 0 b

pub bit_or-zero : (a : ℕ) → bit_or a 0 ≡ a
bit_or-zero a = WellFounded.induction lt_wf {C = λ n. bit_or n 0 ≡ n} a descend
  where
    descend : (n : ℕ) → ((m : ℕ) → m < n → bit_or m 0 ≡ m) → bit_or n 0 ≡ n
    descend zero ih = refl
    descend (suc n) ih = omega (arith, bit_or_halves (suc n) 0, ih (suc n / 2) (omega arith))

mod-double : (m a : ℕ) → a % (m * 2) ≡ a / 2 % m * 2 + a % 2
mod-double m a = omega (
  arith,
  div-add-mod a (m * 2),
  div-add-mod (a / 2) m,
  div-add-mod a 2,
  div-div-eq-div-mul a 2 m,
  mul_comm m 2,
  ap (λ (t : ℕ). m * 2 * t) (div-div-eq-div-mul a 2 m ∙ ap (λ (t : ℕ). a / t) (mul_comm 2 m)),
)

-- A mask of `k` ones keeps the remainder by `2 ^ k`.
pub bit_and_ones : (k a : ℕ) → bit_and a (2 ^ k - 1) ≡ a % 2 ^ k
bit_and_ones zero a = omega (arith, bit_and-zero a)
bit_and_ones (suc k) a = rw (pow-suc 2 k) (
    ground (
      arith,
      one-le-pow k 2,
      bit_and_halves a (2 ^ k * 2 - 1),
      mod-double (2 ^ k) a,
      bit_and_ones k (a / 2),
      halved,
    ))
  where
    halved : (2 ^ k * 2 - 1) / 2 ≡ 2 ^ k - 1
    halved = omega (arith, one-le-pow k 2)

pub bit_or-lt : (k a b : ℕ) → a < 2 ^ k → b < 2 ^ k → bit_or a b < 2 ^ k
bit_or-lt zero zero zero p q = omega (arith, bit_or-zero 0)
bit_or-lt zero zero (suc b) p q = absurd (omega arith)
bit_or-lt zero (suc a) b p q = absurd (omega arith)
bit_or-lt (suc k) a b p q = omega (
  arith,
  pow-suc 2 k,
  bit_or_halves a b,
  bit_or-lt k (a / 2) (b / 2) (omega (arith, pow-suc 2 k)) (omega (arith, pow-suc 2 k)),
)

pub le-bit_or_right : (a b : ℕ) → b ≤ bit_or a b
le-bit_or_right a b = WellFounded.induction lt_wf {C = λ n. (m : ℕ) → n ≤ bit_or m n} b descend a
  where
    descend : (n : ℕ) → ((k : ℕ) → k < n → (m : ℕ) → k ≤ bit_or m k) → (m : ℕ) → n ≤ bit_or m n
    descend zero ih m = omega arith
    descend (suc n) ih m =
        omega (arith, bit_or_halves m (suc n), ih (suc n / 2) (omega arith) (m / 2))

joined :
    (m q r s : ℕ)
    → bit_or (q * m + r / 2) (s / 2) ≡ q * m + bit_or (r / 2) (s / 2)
    → bit_or (q * (m * 2) + r) s ≡ q * (m * 2) + bit_or r s
joined m q r s e =
    rw (bit_or_halves (q * (m * 2) + r) s, bit_or_halves r s, halved, parity, e) (omega arith)
  where
    halved : (q * (m * 2) + r) / 2 ≡ q * m + r / 2
    halved = omega arith

    parity : (q * (m * 2) + r) % 2 ≡ r % 2
    parity = omega arith

-- Low bits are joined below the high ones.
pub bit_or_fields :
    (k q r s : ℕ) → r < 2 ^ k → s < 2 ^ k → bit_or (q * 2 ^ k + r) s ≡ q * 2 ^ k + bit_or r s
bit_or_fields zero q zero zero p h = omega (arith, bit_or-zero (q * 1 + 0), bit_or-zero 0)
bit_or_fields zero q zero (suc s) p h = absurd (omega arith)
bit_or_fields zero q (suc r) s p h = absurd (omega arith)
bit_or_fields (suc k) q r s p h = rw (pow-suc 2 k) (
    joined (2 ^ k) q r s
      (bit_or_fields k q (r / 2) (s / 2) (omega (arith, pow-suc 2 k)) (omega (arith, pow-suc 2 k))))

pub bit_and_comm : (a b : ℕ) → bit_and a b ≡ bit_and b a
bit_and_comm a b =
    WellFounded.induction lt_wf {C = λ n. (m : ℕ) → bit_and n m ≡ bit_and m n} a descend b
  where
    descend :
        (n : ℕ)
        → ((k : ℕ) → k < n → (m : ℕ) → bit_and k m ≡ bit_and m k)
        → (m : ℕ) → bit_and n m ≡ bit_and m n
    descend zero ih m =
        omega (arith, bit_and-zero m, bit_and_halves 0 m, zero-bit_and (m / 2), zero-bit_and m)
    descend (suc n) ih m = omega (
      arith,
      bit_and_halves (suc n) m,
      bit_and_halves m (suc n),
      ih (suc n / 2) (omega arith) (m / 2),
    )
