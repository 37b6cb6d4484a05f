-- ===== src/Malloc/Index.antt =====
-- Which free list holds an element of a size.
use native.Mathlib.Nat.{pow-suc}
use rte_demo.Prelude.{
  ℕ, zero, suc, ◌+◌, ◌-◌, ◌*◌, ◌/◌, ◌^◌, ◌≤◌, ◌<◌, ◌≡◌, refl, ◌⊎◌, inl, inr, arith, leb, ◌==◌,
  Bool-cases, dec_lt,
}
use rte_demo.Word.Smear.{two_pow_mono}
use rte_demo.Malloc.FreeList.{digits, free_list_index}

-- `digits` counts the binary digits.
digits_bounds :
    (k x : ℕ)
    → x < 2 ^ k
    → (x < 2 ^ digits k x)
      × (digits k x ≤ k)
      × (((x ≡ 0) × (digits k x ≡ 0)) ⊎ (2 ^ digits k x ≤ 2 * x))
unfolding digits
digits_bounds zero x h = (omega arith, omega arith, inl (omega arith, refl))
digits_bounds (suc k) x h =
    let (above, short, below) = digits_bounds k (x / 2) (omega (arith, pow-suc 2 k)) in
    elim (Bool-cases (x == 0)) [
      | inl e ↦ rw e (ground arith, omega arith, inl (ground arith, refl))
      | inr e ↦ rw e (
        omega (arith, above, pow-suc 2 (digits k (x / 2))),
        omega arith,
        inr (doubled k x (ground arith) below),
      )
    ]
  where
    doubled :
        (k x : ℕ)
        → 0 < x
        → ((x / 2 ≡ 0) × (digits k (x / 2) ≡ 0)) ⊎ (2 ^ digits k (x / 2) ≤ 2 * (x / 2))
        → 2 ^ suc (digits k (x / 2)) ≤ 2 * x
    doubled k x p (inl (e, z)) = rw z (omega arith)
    doubled k x p (inr b) = omega (arith, pow-suc 2 (digits k (x / 2)))

-- The digits `d` of `size - 1` and the index computed from them.
module _ (size d : ℕ) (large : 2 ^ 8 < size) (above : size ≤ 2 ^ d)
    (below : 2 ^ d ≤ 2 * (size - 1)) where
  enough_digits : 9 ≤ d
  enough_digits = elim (dec_lt 8 d) [
    | yes p ↦ p
    | no p ↦ absurd (omega (arith, two_pow_mono d 8 (omega arith)))
  ]

  in_list : (i : ℕ) → d ≤ 8 + 2 * i → size ≤ 2 ^ (8 + 2 * i)
  in_list i h = omega (arith, two_pow_mono d (8 + 2 * i) h)

  above_list : (i : ℕ) → suc (6 + 2 * i) ≤ d → 2 ^ (6 + 2 * i) < size
  above_list i h = omega (arith, two_pow_mono (suc (6 + 2 * i)) d h, pow-suc 2 (6 + 2 * i))

-- The index is that of one of the 13 lists; all but the last hold sizes up to `2 ^ (8 + 2 * i)`,
-- and all but the first hold sizes above `2 ^ (6 + 2 * i)`.
pub free_list_index_lem :
    (size : ℕ)
    → size < 2 ^ 64
    → (free_list_index size ≤ 12)
      × ((size ≤ 2 ^ (8 + 2 * free_list_index size)) ⊎ (free_list_index size ≡ 12))
      × ((2 ^ (6 + 2 * free_list_index size) < size) ⊎ (free_list_index size ≡ 0))
unfolding free_list_index
free_list_index_lem size h = elim (Bool-cases (leb size (2 ^ 8))) [
  | inl e ↦ rw e (omega arith, inl (ground arith), inr refl)
  | inr e ↦
      let (above, short, below) = digits_bounds 64 (size - 1) (omega arith) in
      let large : 2 ^ 8 < size = ground arith in
      let up : size ≤ 2 ^ digits 64 (size - 1) = omega arith in
      let down : 2 ^ digits 64 (size - 1) ≤ 2 * (size - 1) =
        half size large (digits 64 (size - 1)) below in
      let nine = enough_digits size (digits 64 (size - 1)) large up down in
      rw e (elim (Bool-cases (leb ((digits 64 (size - 1) - 8 + 2 - 1) / 2) 12)) [
        | inl s ↦ rw s (
          ground arith,
          inl (
              in_list size (digits 64 (size - 1)) large up down
                ((digits 64 (size - 1) - 8 + 2 - 1) / 2) (omega arith)),
          inl (
              above_list size (digits 64 (size - 1)) large up down
                ((digits 64 (size - 1) - 8 + 2 - 1) / 2) (omega arith)),
        )
        | inr s ↦ rw s (
          omega arith,
          inr refl,
          inl (above_list size (digits 64 (size - 1)) large up down 12 (ground arith)),
        )
      ])
]
  where
    half :
        (size : ℕ)
        → 2 ^ 8 < size
        → (d : ℕ) → ((size - 1 ≡ 0) × (d ≡ 0)) ⊎ (2 ^ d ≤ 2 * (size - 1))
        → 2 ^ d ≤ 2 * (size - 1)
    half size p d (inl (a, b)) = absurd (omega arith)
    half size p d (inr b) = b
