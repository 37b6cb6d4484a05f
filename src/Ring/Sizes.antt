-- ===== src/Ring/Sizes.antt =====
-- Which counts `rte_ring_get_memsize` and `rte_ring_init` take, and how much memory a ring needs.
use rte_demo.Prelude.{
  ℕ, ◌+◌, ◌-◌, ◌*◌, ◌%◌, ◌^◌, ◌≤◌, ◌<◌, ◌≡◌, refl, ap, ◌⊎◌, inl, inr, ◌↔◌, arith, true, false, List,
  length, bit_and, Bool-cases, dec_lt,
}
use rte_demo.Word.{sub32, add64, align_ceil}
use rte_demo.Word.Align.{align_ceil_lem}
use rte_demo.Word.Bits.{bit_and_comm}
use rte_demo.Word.Pow2.{IsPow2-bit_and}
use rte_demo.Word.Smear.{two_pow_bound}
use rte_demo.Ring.Types.{einval, enametoolong, ok, err, Ring}
use rte_demo.Ring.Setup.{
  exact_sz, has, name_size, ring_struct_size, poweroftwo, rejected, get_memsize, init,
}
use rte_demo.Ring.Fresh.{accepted, long_name, exact_branch, rejected_branch, accepted_branch}

-- The counts that the code takes without `RING_F_EXACT_SZ`: 0 is among them.
abbrev pub IsTaken : ℕ → Type 0
IsTaken count = (count ≡ 0) ⊎ ((k : ℕ) × (k < 31) × (count ≡ 2 ^ k))

tested :
    (count : ℕ)
    → count < 2 ^ 32
    → 0 < count
    → rejected count ≡ false
    → bit_and count (count - 1) ≡ 0
unfolding rejected poweroftwo
tested count h p e = rw (bit_and_comm count (count - 1)) (ground (arith, pred))
  where
    pred : sub32 count 1 ≡ count - 1
    pred = omega arith

taken-small : (count : ℕ) → rejected count ≡ false → count < 2 ^ 31
unfolding rejected
taken-small count e = ground arith

zero_taken : rejected 0 ≡ false
unfolding rejected poweroftwo
zero_taken = refl

-- A count passes the check of the code exactly when it is 0 or a power of two below 2 ^ 31.
pub rejected_iff : (count : ℕ) → count < 2 ^ 32 → (rejected count ≡ false) ↔ IsTaken count
rejected_iff count h = (only, every)
  where
    only : rejected count ≡ false → IsTaken count
    only e = elim (dec_lt 0 count) [
      | yes p ↦
          let (k, at) = IsPow2-bit_and count p (tested count h p e) in
          inr (k, two_pow_bound k 31 (2 ^ k) (omega arith) (omega (arith, taken-small count e)), at)
      | no p ↦ inl (omega arith)
    ]

    every : IsTaken count → rejected count ≡ false
    every (inl e) = rw e zero_taken
    every (inr (k, small, e)) = rw e (accepted k small)

-- What a size in bytes has to be: whole cache lines that hold the structure and the table.
pub record Holds (count bytes : ℕ) : Type 0 where
  pub aligned : bytes % 64 ≡ 0
  pub enough : ring_struct_size + 8 * count ≤ bytes
  pub tight : bytes < ring_struct_size + 8 * count + 64

memsize-Holds :
    (count : ℕ)
    → count < 2 ^ 31
    → Holds count (align_ceil 64 32 (add64 ring_struct_size (count * 8 % 2 ^ 64)) 64)
memsize-Holds count h = record {
  aligned = rounded.0;
  enough = omega (arith, rounded.1);
  tight = omega (arith, rounded.2);
}
  where
    bytes : ℕ
    bytes = add64 ring_struct_size (count * 8 % 2 ^ 64)

    rounded :
        (align_ceil 64 32 bytes 64 % 64 ≡ 0)
        × (bytes ≤ align_ceil 64 32 bytes 64)
        × (align_ceil 64 32 bytes 64 < bytes + 64)
    rounded = align_ceil_lem 64 32 6 bytes (omega arith) (omega arith) (omega arith)

memsize-taken :
    (count : ℕ)
    → rejected count ≡ false
    → (bytes : ℕ) × (get_memsize count ≡ ok bytes) × Holds count bytes
unfolding get_memsize
memsize-taken count e = (
  align_ceil 64 32 (add64 ring_struct_size (count * 8 % 2 ^ 64)) 64,
  rw e,
  memsize-Holds count (taken-small count e),
)

memsize-refused : (count : ℕ) → rejected count ≡ true → get_memsize count ≡ err einval
unfolding get_memsize
memsize-refused count e = rw e

-- Either the count is taken and the bytes returned are the least whole number of cache lines that
-- holds the structure and its table, or the count is not taken and the call fails with EINVAL.
pub get_memsize_lem :
    (count : ℕ)
    → count < 2 ^ 32
    → (IsTaken count × (bytes : ℕ) × (get_memsize count ≡ ok bytes) × Holds count bytes)
      ⊎ ((¬ IsTaken count) × (get_memsize count ≡ err einval))
get_memsize_lem count h = elim (Bool-cases (rejected count)) [
  | inl e ↦ inr (λ t. absurd (ground (arith, (rejected_iff count h).1 t)), memsize-refused count e)
  | inr e ↦
      let (bytes, returned, holds) = memsize-taken count e in
      inl ((rejected_iff count h).0 e, bytes, returned, holds)
]

result : {A B : Type 0} {p : A × B} {a : A} {b : B} → p ≡ (a, b) → p.0 ≡ a
result e = ap (λ p. p.0) e

-- Three outcomes: a name of 32 characters or more fails with ENAMETOOLONG; a shorter name with a
-- count that is not taken, without `RING_F_EXACT_SZ`, fails with EINVAL; else the call succeeds.
pub init_outcomes :
    (r : Ring) (name : List ℕ) (count flags : ℕ)
    → count < 2 ^ 32
    → ((name_size ≤ length name) × ((init r name count flags).0 ≡ err enametoolong))
      ⊎ ((length name < name_size)
          × (has flags exact_sz ≡ false)
          × (¬ IsTaken count)
          × ((init r name count flags).0 ≡ err einval))
      ⊎ ((length name < name_size)
          × ((has flags exact_sz ≡ true) ⊎ IsTaken count)
          × ((init r name count flags).0 ≡ ok tt))
init_outcomes r name count flags h = elim (dec_lt (length name) name_size) [
  | no long ↦ inl (omega arith, result (long_name r name count flags (omega arith)))
  | yes short ↦ elim (Bool-cases (has flags exact_sz)) [
    | inl e ↦ inr (inr (short, inl e, result (exact_branch r name count flags short e)))
    | inr e ↦ elim (Bool-cases (rejected count)) [
      | inl refused ↦ inr (
          inl (
            short,
            e,
            λ t. absurd (ground (arith, (rejected_iff count h).1 t)),
            result (rejected_branch r name count flags short e refused),
          ))
      | inr taken ↦ inr (
          inr (
            short,
            inr ((rejected_iff count h).0 taken),
            result (accepted_branch r name count flags short e taken),
          ))
    ]
  ]
]
