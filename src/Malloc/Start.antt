-- ===== src/Malloc/Start.antt =====
-- Where in an element a block of data can start.
use native.Mathlib.Nat.{div-add-mod', le-div_iff_mul-le, mul-le-mul_right, mod-lt, mul-mod_left}
use rte_demo.Prelude.{
  ℕ, ◌+◌, ◌-◌, ◌*◌, ◌/◌, ◌%◌, ◌^◌, ◌≤◌, ◌<◌, ◌≡◌, refl, ap, ◌∙◌, ◌⊎◌, inl, inr, arith, ltb, true,
  Bool-cases,
}
use rte_demo.Word.{add64, sub64, align_floor}
use rte_demo.Word.Align.{align_floor_lem, two_pow_pos}
use rte_demo.Word.Bits.{bit_and-zero}
use rte_demo.Malloc.Types.{header_len}
use rte_demo.Malloc.Fit.{together, not_before, elem_start_pt}

-- A header at `p` with aligned data of `size` bytes behind it lies inside the element.
pub record Fits (elem elem_size size align p : ℕ) : Type 0 where
  pub start : elem ≤ p
  pub aligned : (p + header_len) % align ≡ 0
  pub ends : p + header_len + size ≤ elem + elem_size

no_bound : (x y : ℕ) → together 0 x y ≡ true
no_bound x y = ground (arith, bit_and-zero x, bit_and-zero (sub64 y 1))

-- A multiple that is not above a value is not above its rounding.
multiple-le : (m x y : ℕ) → 0 < m → y % m ≡ 0 → y ≤ x → y ≤ x - x % m
multiple-le m x y p e h =
    omega (arith, div-add-mod' x m, div-add-mod' y m, mul-le-mul_right m quotients)
  where
    quotients : y / m ≤ x / m
    quotients = (le-div_iff_mul-le p).1 (omega (arith, div-add-mod' y m))

rounded-mod : (m x : ℕ) → 0 < m → (x - x % m) % m ≡ 0
rounded-mod m x p = omega (arith, ap (λ (t : ℕ). t % m) whole ∙ mul-mod_left (x / m) m)
  where
    whole : x - x % m ≡ x / m * m
    whole = omega (arith, div-add-mod' x m)

module _ (elem elem_size size a : ℕ) (narrow : a < 32) (word : elem + elem_size < 2 ^ 64)
    (room : size + 2 ^ a + header_len ≤ elem + elem_size) where
  -- The data at the last aligned address that leaves room for them.
  data_start : ℕ
  data_start = elem + elem_size - size - (elem + elem_size - size) % 2 ^ a

  start_value : elem_start_pt elem elem_size size (2 ^ a) 0 ≡ not_before elem data_start
  unfolding elem_start_pt data_start
  start_value = rw (
    no_bound (align_floor 64 32 (sub64 (add64 elem elem_size) size) (2 ^ a)) (add64 elem elem_size),
    distance,
    align_floor_lem 64 32 a (elem + elem_size - size) narrow (omega arith) (omega arith),
  )
    where
      distance : sub64 (add64 elem elem_size) size ≡ elem + elem_size - size
      distance = omega arith

  start_above : header_len ≤ data_start
  unfolding data_start
  start_above = omega (arith, mod-lt (elem + elem_size - size) (two_pow_pos a))

  header_at : sub64 data_start header_len + header_len ≡ data_start
  unfolding data_start
  header_at = omega (arith, start_above)

  last_start : (q : ℕ) → q % 2 ^ a ≡ 0 → q + size ≤ elem + elem_size → q ≤ data_start
  unfolding data_start
  last_start q e h = multiple-le (2 ^ a) (elem + elem_size - size) q (two_pow_pos a) e (omega arith)

  data_end : data_start + size ≤ elem + elem_size
  unfolding data_start
  data_end = omega arith

  start_mod : data_start % 2 ^ a ≡ 0
  unfolding data_start
  start_mod = rounded-mod (2 ^ a) (elem + elem_size - size) (two_pow_pos a)

  -- Without a bound, and where the subtraction does not wrap: a header and data that fit into the
  -- element, or NULL where no place in the element fits.
  pub elem_start_pt_lem :
      Fits elem elem_size size (2 ^ a) (elem_start_pt elem elem_size size (2 ^ a) 0)
      ⊎ ((elem_start_pt elem elem_size size (2 ^ a) 0 ≡ 0)
          × (¬ ((p : ℕ) × Fits elem elem_size size (2 ^ a) p)))
  elem_start_pt_lem = rw start_value (elim (Bool-cases (ltb (sub64 data_start header_len) elem)) [
    | inl e ↦ rw e (
        inr (
          refl,
          λ q. absurd (
              ground
                (arith, last_start (q.0 + header_len) q.1.aligned q.1.ends, q.1.start, header_at)),
        ))
    | inr e ↦ rw e (
        inl (record {
          start = ground arith;
          aligned = rw header_at start_mod;
          ends = omega (arith, header_at, data_end);
        }))
  ])
