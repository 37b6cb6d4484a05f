-- ===== src/Mempool/Sizes/Objects.antt =====
-- `rte_mempool_calc_obj_size` of lib/librte_mempool/rte_mempool.c.
use rte_demo.Prelude.{
  ℕ, ◌+◌, ◌-◌, ◌*◌, ◌/◌, ◌%◌, ◌^◌, ◌≤◌, ◌<◌, ◌≡◌, refl, ap, ◌∙◌, arith, some, bit_and, Bool,
  Bool-cases, ◌⊎◌, inl, inr, true, false, if◌then◌else◌,
}
use rte_demo.Word.{add32, sub32, align_ceil}
use rte_demo.Word.Align.{align_ceil_lem}
use rte_demo.Word.Bits.{bit_and_ones}
use rte_demo.Ring.Setup.{has}
use rte_demo.Mempool.Sizes.{
  default_to, ObjSize, header_of, elt_of, trailer_of, summed, calc_obj_size, no_spread,
  no_cache_align, objhdr_size,
}
use rte_demo.Mempool.Sizes.Gcd.{IsCoprime}
use rte_demo.Mempool.Sizes.Spread.{optimize_object_size_lem}

-- Header, element and trailer stand one after the other; where objects stand on cache lines, the
-- header and the whole are made of cache lines, and where they are spread, the whole is, by a number
-- that has no divisor but 1 in common with the number of channels times ranks.
pub record IsLaid (ways elt_size flags : ℕ) (sz : ObjSize) : Type 0 where
  pub header : objhdr_size ≤ sz.header_size
  pub element : (elt_size ≤ sz.elt_size) × (sz.elt_size < elt_size + 8) × (sz.elt_size % 8 ≡ 0)
  pub total : sz.total_size ≡ sz.header_size + sz.elt_size + sz.trailer_size
  pub bound : sz.total_size < elt_size + 64 * ways + 200
  pub lines :
      (has flags no_cache_align ≡ true) ⊎ ((sz.header_size % 64 ≡ 0) × (sz.total_size % 64 ≡ 0))
  pub spread :
      (has flags no_spread ≡ true)
      ⊎ ((sz.total_size % 64 ≡ 0) × IsCoprime (sz.total_size / 64) ways)

unless : {A : Type 0} (b : Bool) → (b ≡ false → A) → (b ≡ true) ⊎ A
unless true f = inl refl
unless false f = inr (f refl)

header_cases :
    (flags : ℕ) → (b : _) → has flags no_cache_align ≡ b → header_of flags ≡ (if b then 16 else 64)
unfolding header_of align_ceil
header_cases flags true e = rw e refl
header_cases flags false e = rw e refl

elt_lem :
    (elt_size : ℕ)
    → elt_size + 8 ≤ 2 ^ 32
    → (elt_size ≤ elt_of elt_size) × (elt_of elt_size < elt_size + 8) × (elt_of elt_size % 8 ≡ 0)
unfolding elt_of align_ceil
elt_lem elt_size h =
    let (a, b, c) = align_ceil_lem 32 32 3 elt_size (omega arith) (omega arith) (omega arith) in
    (b, c, a)

-- What is missing to the next cache line.
gap : (x : ℕ) → bit_and (64 - bit_and x 63) 63 ≡ (64 - x % 64) % 64
gap x = bit_and_ones 6 (64 - bit_and x 63) ∙ ap (λ (t : ℕ). (64 - t) % 64) (bit_and_ones 6 x)

header_lem :
    (flags : ℕ)
    → (objhdr_size ≤ header_of flags)
      × (header_of flags ≤ 64)
      × (has flags no_cache_align ≡ false → header_of flags % 64 ≡ 0)
header_lem flags = elim (Bool-cases (has flags no_cache_align)) [
  | inl e ↦
      rw (header_cases flags true e)
        (omega arith, omega arith, λ off. absurd (ground (arith, e, off)))
  | inr e ↦ rw (header_cases flags false e) (omega arith, omega arith, λ off. omega arith)
]

trailer_lem :
    (elt_size flags : ℕ)
    → elt_size + 200 ≤ 2 ^ 32
    → (trailer_of elt_size flags < 64)
      × (has flags no_cache_align ≡ false
          → (header_of flags + elt_of elt_size + trailer_of elt_size flags) % 64 ≡ 0)
unfolding trailer_of
trailer_lem elt_size flags h = elim (Bool-cases (has flags no_cache_align)) [
  | inl e ↦ rw e (omega arith, λ off. absurd (ground (arith, off)))
  | inr e ↦
      rw (e, gap (add32 (header_of flags) (elt_of elt_size)))
        (
          omega arith,
          λ off. omega (arith, (header_lem flags).1, (elt_lem elt_size (omega arith)).1),
        )
]

module _ (rounds nchannel nrank elt_size flags : ℕ)
    (enough : default_to nrank 1 * default_to nchannel 4 ≤ rounds)
    (fits : elt_size + 64 * (default_to nrank 1 * default_to nchannel 4) + 300 ≤ 2 ^ 32) where
  abbrev ways : ℕ
  ways = default_to nrank 1 * default_to nchannel 4

  abbrev whole : ℕ
  whole = header_of flags + elt_of elt_size + trailer_of elt_size flags

  whole_sum : add32 (add32 (header_of flags) (elt_of elt_size)) (trailer_of elt_size flags) ≡ whole
  whole_sum = omega (
    arith,
    fits,
    (header_lem flags).1,
    (elt_lem elt_size (omega (arith, fits))).1,
    (trailer_lem elt_size flags (omega (arith, fits))).0,
  )

  tight_IsLaid :
      has flags no_spread ≡ true
      → IsLaid ways elt_size flags
          (summed (header_of flags) (elt_of elt_size) (trailer_of elt_size flags))
  unfolding summed
  tight_IsLaid e =
      let elt = elt_lem elt_size (omega (arith, fits)) in
      let trailer = trailer_lem elt_size flags (omega (arith, fits)) in
      let header = header_lem flags in
      record {
        header = header.0;
        element = elt;
        total = whole_sum;
        bound = omega (arith, whole_sum, header.1, elt.1, trailer.0);
        lines =
            unless (has flags no_cache_align)
              (λ off. (header.2 off, ap (λ (t : ℕ). t % 64) whole_sum ∙ trailer.1 off));
        spread = inl e;
      }

  -- What the call leaves where the objects are spread over `new_size` bytes.
  abbrev stretched : ℕ → ObjSize
  stretched new_size =
      summed (header_of flags) (elt_of elt_size)
        (sub32 (sub32 new_size (header_of flags)) (elt_of elt_size))

  spread_IsLaid :
      (n : ℕ)
      → whole ≤ 64 * n
      → 64 * n < whole + 64 * ways
      → IsCoprime n ways
      → IsLaid ways elt_size flags (stretched (64 * n))
  unfolding summed
  spread_IsLaid n low high e =
      let elt = elt_lem elt_size (omega (arith, fits)) in
      let trailer = trailer_lem elt_size flags (omega (arith, fits)) in
      let header = header_lem flags in
      record {
        header = header.0;
        element = elt;
        total = omega (arith, rest, low, small, elt.1, header.1);
        bound = omega (arith, sum, header.1, elt.1, trailer.0, high);
        lines = unless (has flags no_cache_align) (λ off. (header.2 off, rw sum (omega arith)));
        spread = inr (rw (sum, multiple) (omega arith, e));
      }
    where
      small : 64 * n < 2 ^ 32
      small = omega (
        arith,
        high,
        fits,
        (header_lem flags).1,
        (elt_lem elt_size (omega (arith, fits))).1,
        (trailer_lem elt_size flags (omega (arith, fits))).0,
      )

      rest :
          sub32 (sub32 (64 * n) (header_of flags)) (elt_of elt_size)
          ≡ 64 * n - header_of flags - elt_of elt_size
      rest = omega (arith, low, small)

      sum : (stretched (64 * n)).total_size ≡ 64 * n
      sum = omega (arith, rest, low, small)

      multiple : 64 * n / 64 ≡ n
      multiple = omega arith

  -- Where nothing wraps, and with as many rounds as there are ways to spread, the call ends, and the
  -- sizes it computes are as laid out above.
  pub calc_obj_size_lem :
      (sz : ObjSize) × (calc_obj_size rounds nchannel nrank elt_size flags ≡ some sz)
      × IsLaid ways elt_size flags sz
  unfolding calc_obj_size
  calc_obj_size_lem = elim (Bool-cases (has flags no_spread)) [
    | inl e ↦ (
      summed (header_of flags) (elt_of elt_size) (trailer_of elt_size flags),
      rw e,
      tight_IsLaid e,
    )
    | inr e ↦
        let (n, ran, low, high, v) = optimize_object_size_lem rounds nchannel nrank whole enough (
          omega (
            arith,
            fits,
            (header_lem flags).1,
            (elt_lem elt_size (omega (arith, fits))).1,
            (trailer_lem elt_size flags (omega (arith, fits))).0,
          )) in
        (stretched (64 * n), rw (e, whole_sum, ran), spread_IsLaid n low high v.spread)
  ]
