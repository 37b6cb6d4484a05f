-- ===== src/Mempool/Sizes/Spread.antt =====
-- `optimize_object_size` of lib/librte_mempool/rte_mempool.c ends, with the next size that spreads
-- the objects over the channels and ranks.
use Prim.Native.Nat.{◌∣◌}
use native.Mathlib.Nat.{
  dvd-mod_iff, eq-one_of_dvd-one, mod-eq_of_lt, mod-lt, mul-pos, mod-add-mod, add-mod_left,
}
use mathlib.Core.Path.{subst}
use rte_demo.Prelude.{
  ℕ, zero, suc, ◌+◌, ◌-◌, ◌*◌, ◌/◌, ◌%◌, ◌^◌, ◌≤◌, ◌<◌, ◌≡◌, ◌≢◌, refl, sym, ap, ◌∙◌, arith, Option,
  none, some, ◌==◌, leb, Bool-cases, ==_iff, inl, inr, true, false,
}
use rte_demo.Word.{add32}
use rte_demo.Mempool.Sizes.{get_gcd, spread_loop, default_to, optimize_object_size}
use rte_demo.Mempool.Sizes.Gcd.{get_gcd_lem, IsCoprime, get_gcd-IsCoprime}

-- A number that leaves 1 has no divisor in common with `k`.
coprime : (x k : ℕ) → 1 < k → x % k ≡ 1 → get_gcd x k ≡ some 1
coprime x k h e =
    let (g, ran, v) = get_gcd_lem x k in
    ran
    ∙ ap some (eq-one_of_dvd-one (subst (λ (t : ℕ). ◌∣◌ g t) e ((dvd-mod_iff g v.right).1 v.left)))

coprime_one : (x : ℕ) → get_gcd x 1 ≡ some 1
coprime_one x = let (g, ran, v) = get_gcd_lem x 1 in ran ∙ ap some (eq-one_of_dvd-one v.right)

-- There is one among `k` numbers in a row.
near_coprime : (x k : ℕ) → 0 < k → (i : ℕ) × (i < k) × (get_gcd (x + i) k ≡ some 1)
near_coprime x zero h = absurd (omega arith)
near_coprime x (suc zero) h = (0, omega arith, coprime_one (x + 0))
near_coprime x (suc (suc k)) h = elim (Bool-cases (leb r 1)) [
  | inl e ↦ (1 - r, omega arith, coprime (x + (1 - r)) m (omega arith) (low e))
  | inr e ↦ (
    m + 1 - r,
    ground (arith, mod-lt x {m = m} (omega arith)),
    coprime (x + (m + 1 - r)) m (omega arith) (high e),
  )
]
  where
    m : ℕ
    m = suc (suc k)

    r : ℕ
    r = x % m

    low : leb r 1 ≡ true → (x + (1 - r)) % m ≡ 1
    low e = sym (mod-add-mod x m (1 - r)) ∙ ap (λ (t : ℕ). t % m) sum ∙ mod-eq_of_lt (omega arith)
      where
        sum : r + (1 - r) ≡ 1
        sum = ground arith

    high : leb r 1 ≡ false → (x + (m + 1 - r)) % m ≡ 1
    high e =
        sym (mod-add-mod x m (m + 1 - r))
        ∙ ap (λ (t : ℕ). t % m) sum
        ∙ add-mod_left m 1
        ∙ mod-eq_of_lt (omega arith)
      where
        sum : r + (m + 1 - r) ≡ m + 1
        sum = ground (arith, mod-lt x {m = m} (omega arith))

-- The first size from `x` on that spreads.
pub record IsSpread (x ways r : ℕ) : Type 0 where
  pub low : x ≤ r
  pub spread : IsCoprime r ways
  pub first : (y : ℕ) → x ≤ y → y < r → ¬ IsCoprime y ways

here_IsSpread : (x ways : ℕ) → get_gcd x ways ≡ some 1 → IsSpread x ways x
here_IsSpread x ways e = record {
  low = omega arith;
  spread = (get_gcd-IsCoprime x ways).0 e;
  first = λ y p q. absurd (omega arith);
}

later_IsSpread :
    (x ways r : ℕ) → get_gcd x ways ≢ some 1 → IsSpread (x + 1) ways r → IsSpread x ways r
later_IsSpread x ways r lacks v = record {
  low = omega (arith, v.low);
  spread = v.spread;
  first = λ y p q. elim (Bool-cases (y == x)) [
    | inl e ↦
        subst (λ (t : ℕ). ¬ IsCoprime t ways) (sym ((==_iff y x).0 e))
          (λ c. lacks ((get_gcd-IsCoprime x ways).1 c))
    | inr e ↦ v.first y (ground arith) q
  ];
}

value : Option ℕ → ℕ
value none = 0
value (some n) = n

other_gcd : (x ways g : ℕ) → get_gcd x ways ≡ some g → (g == 1) ≡ false → get_gcd x ways ≢ some 1
other_gcd x ways g ran other e = absurd (ground (arith, ap value (sym ran ∙ e)))

loop_ends :
    (rounds x ways i : ℕ)
    → i < rounds
    → x + i < 2 ^ 32
    → get_gcd (x + i) ways ≡ some 1
    → (r : ℕ) × (spread_loop rounds x ways ≡ some r) × (r ≤ x + i) × IsSpread x ways r
unfolding spread_loop
loop_ends zero x ways i h w e = absurd (omega arith)
loop_ends (suc rounds) x ways zero h w e =
    (x, rw (← unmoved) (rw e refl), omega arith, here_IsSpread x ways (rw (← unmoved) e))
  where
    unmoved : x + 0 ≡ x
    unmoved = omega arith
loop_ends (suc rounds) x ways (suc i) h w e =
    let (g, ran, v) = get_gcd_lem x ways in
    elim (Bool-cases (g == 1)) [
      | inl one ↦ (
        x,
        rw (ran, one) refl,
        omega arith,
        here_IsSpread x ways (ran ∙ ap some ((==_iff g 1).0 one)),
      )
      | inr other ↦
          let (r, more, high, found) =
            loop_ends rounds (x + 1) ways i (omega arith) (omega arith) (rw moved e) in
          (
            r,
            rw (ran, other, no_wrap) more,
            omega arith,
            later_IsSpread x ways r (other_gcd x ways g ran other) found,
          )
    ]
  where
    no_wrap : add32 x 1 ≡ x + 1
    no_wrap = omega arith

    moved : x + 1 + i ≡ x + suc i
    moved = omega arith

ways_positive : (nchannel nrank : ℕ) → 0 < default_to nrank 1 * default_to nchannel 4
ways_positive nchannel nrank = mul-pos (ground arith) (ground arith)

-- Where nothing wraps, as many rounds as there are ways to spread are enough: the loop ends with a
-- number of cache lines that holds the object, and it is the least one without a divisor but 1 in common
-- with the number of channels times ranks.
pub optimize_object_size_lem :
    (rounds nchannel nrank obj_size : ℕ)
    → default_to nrank 1 * default_to nchannel 4 ≤ rounds
    → obj_size + 64 * (default_to nrank 1 * default_to nchannel 4) + 64 ≤ 2 ^ 32
    → (lines : ℕ) × (optimize_object_size rounds nchannel nrank obj_size ≡ some (64 * lines))
      × (obj_size ≤ 64 * lines)
      × (64 * lines < obj_size + 64 * (default_to nrank 1 * default_to nchannel 4))
      × IsSpread ((obj_size + 63) / 64) (default_to nrank 1 * default_to nchannel 4) lines
unfolding optimize_object_size
optimize_object_size_lem rounds nchannel nrank obj_size enough fits =
    let ways = default_to nrank 1 * default_to nchannel 4 in
    let start = (obj_size + 63) / 64 in
    let (i, h, e) = near_coprime start ways (ways_positive nchannel nrank) in
    let (lines, ran, high, v) = loop_ends rounds start ways i (omega arith) (omega arith) e in
    (
      lines,
      rw (no_wrap, narrow, ran) (ap some (omega arith)),
      omega (arith, v.low),
      omega (arith, h),
      v,
    )
  where
    narrow :
        default_to nrank 1 * default_to nchannel 4 % 2 ^ 32
        ≡ default_to nrank 1 * default_to nchannel 4
    narrow = mod-eq_of_lt (omega arith)

    no_wrap : add32 obj_size 63 ≡ obj_size + 63
    no_wrap = omega arith
