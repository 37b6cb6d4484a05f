-- ===== src/Mempool/Sizes/Gcd.antt =====
-- `get_gcd` of lib/librte_mempool/rte_mempool.c computes a greatest common divisor.
use Prim.Native.Nat.{◌∣◌}
use native.Mathlib.Nat.{dvd_refl, dvd-zero, dvd-mod_iff, eq-one_of_dvd-one}
use mathlib.Core.Path.{subst}
use rte_demo.Prelude.{
  ℕ, zero, suc, ◌%◌, ◌<◌, ◌≡◌, ◌↔◌, refl, ap, ◌∙◌, arith, some, ltb, Bool-cases, inl, inr,
}
use rte_demo.Mempool.Sizes.{gcd_loop, get_gcd}

-- The greatest common divisor for divisibility: of 0 and 0 it is 0.
pub record IsGcd (a b g : ℕ) : Type 0 where
  pub left : g ∣ a
  pub right : g ∣ b
  pub greatest : (d : ℕ) → d ∣ a → d ∣ b → d ∣ g

swap_IsGcd : {a b g : ℕ} → IsGcd a b g → IsGcd b a g
swap_IsGcd v = record { left = v.right; right = v.left; greatest = λ d p q. v.greatest d q p }

zero_IsGcd : (a : ℕ) → IsGcd a 0 a
zero_IsGcd a = record { left = dvd_refl a; right = dvd-zero a; greatest = λ d p q. p }

step_IsGcd : (a b g : ℕ) → IsGcd (suc b) (a % suc b) g → IsGcd a (suc b) g
step_IsGcd a b g v = record {
  left = (dvd-mod_iff g v.left).0 v.right;
  right = v.left;
  greatest = λ d p q. v.greatest d q ((dvd-mod_iff d q).1 p);
}

loop_ends : (rounds a b : ℕ) → b < rounds → (g : ℕ) × (gcd_loop rounds a b ≡ some g) × IsGcd a b g
unfolding gcd_loop
loop_ends zero a b h = absurd (omega arith)
loop_ends (suc rounds) a zero h = (a, refl, zero_IsGcd a)
loop_ends (suc rounds) a (suc b) h =
    let (g, ran, v) = loop_ends rounds (suc b) (a % suc b) (omega arith) in
    (g, ran, step_IsGcd a b g v)

-- The function ends and returns the greatest common divisor of its arguments.
pub get_gcd_lem : (a b : ℕ) → (g : ℕ) × (get_gcd a b ≡ some g) × IsGcd a b g
unfolding get_gcd
get_gcd_lem zero b = (b, refl, swap_IsGcd (zero_IsGcd b))
get_gcd_lem (suc a) zero = (suc a, refl, zero_IsGcd (suc a))
get_gcd_lem (suc a) (suc b) = elim (Bool-cases (ltb a b)) [
  | inl e ↦
      let (g, ran, v) = loop_ends (suc (suc a)) (suc b) (suc a) (omega arith) in
      (g, rw e ran, swap_IsGcd v)
  | inr e ↦
      let (g, ran, v) = loop_ends (suc (suc b)) (suc a) (suc b) (omega arith) in (g, rw e ran, v)
]

-- No number but 1 divides both.
abbrev pub IsCoprime : ℕ → ℕ → Type 0
IsCoprime a b = (d : ℕ) → d ∣ a → d ∣ b → d ≡ 1

one-IsCoprime : (a b g : ℕ) → IsGcd a b g → g ≡ 1 → IsCoprime a b
one-IsCoprime a b g v e d p q = eq-one_of_dvd-one (subst (λ (t : ℕ). d ∣ t) e (v.greatest d p q))

-- The function returns 1 exactly on such numbers.
pub get_gcd-IsCoprime : (a b : ℕ) → (get_gcd a b ≡ some 1) ↔ IsCoprime a b
get_gcd-IsCoprime a b =
    let (g, ran, v) = get_gcd_lem a b in
    (λ e. one-IsCoprime a b g v (cc (ran, e)), λ c. ran ∙ ap some (c g v.left v.right))
