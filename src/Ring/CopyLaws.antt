-- ===== src/Ring/CopyLaws.antt =====
-- The loops of `ENQUEUE_PTRS` and `DEQUEUE_PTRS` against a plain copy of `n` words.
use mathlib.Core.Path.{ap₂}
use native.Mathlib.Nat.{suc-add, add-zero}
use rte_demo.Prelude.{
  ℕ, zero, suc, ◌+◌, ◌-◌, ◌*◌, ◌/◌, ◌%◌, ◌^◌, ◌≤◌, ◌<◌, ◌≡◌, refl, sym, ap, ◌∙◌, ◌⊎◌, inl, arith,
  List, length, get_or, length-set, get_or-set_self, get_or-set_ne, bit_and,
}
use rte_demo.Word.Bits.{bit_and_halves, bit_and_ones}
use rte_demo.Ring.Copy.{assign, Cursor, one, four, ones, fours, rest, straight}

-- The plain copy: `dst[d + i] = src[s + i]` for `i < n`, in order.
pub copy : ℕ → List ℕ → ℕ → List ℕ → ℕ → List ℕ
copy zero dst d src s = dst
copy (suc n) dst d src s = copy n (assign dst d src s) (d + 1) src (s + 1)

abbrev pub cursor : List ℕ → ℕ → ℕ → Cursor
cursor dst d s = record { dst = dst; to = d; from = s }

pub copy-add :
    (a b : ℕ) (dst : List ℕ) (d : ℕ) (src : List ℕ) (s : ℕ)
    → copy (a + b) dst d src s ≡ copy b (copy a dst d src s) (d + a) src (s + a)
unfolding copy
copy-add zero b dst d src s = ground arith
copy-add (suc a) b dst d src s = rw suc-add (
    copy-add a b (assign dst d src s) (d + 1) src (s + 1)
    ∙ ap₂ (λ (x y : ℕ). copy b (copy a (assign dst d src s) (d + 1) src (s + 1)) x src y)
        (omega arith) (omega arith))

one-cursor :
    (src dst : List ℕ) (d s : ℕ)
    → d + 1 < 2 ^ 32
    → s + 1 < 2 ^ 32
    → one src (cursor dst d s) ≡ cursor (assign dst d src s) (d + 1) (s + 1)
unfolding one
one-cursor src dst d s p q = ground arith

four-cursor :
    (src dst : List ℕ) (d s : ℕ)
    → d + 4 < 2 ^ 32
    → s + 4 < 2 ^ 32
    → four src (cursor dst d s) ≡ cursor (copy 4 dst d src s) (d + 4) (s + 4)
unfolding four copy
four-cursor src dst d s p q = ground arith

pub ones-copy :
    (k : ℕ) (src dst : List ℕ) (d s : ℕ)
    → d + k < 2 ^ 32
    → s + k < 2 ^ 32
    → ones k src (cursor dst d s) ≡ cursor (copy k dst d src s) (d + k) (s + k)
unfolding ones copy
ones-copy zero src dst d s p q = ground arith
ones-copy (suc k) src dst d s p q =
    ground (arith, one-cursor src dst d s, ones-copy k src (assign dst d src s) (d + 1) (s + 1))

fours-copy :
    (k : ℕ) (src dst : List ℕ) (d s : ℕ)
    → d + k * 4 < 2 ^ 32
    → s + k * 4 < 2 ^ 32
    → fours k src (cursor dst d s) ≡ cursor (copy (k * 4) dst d src s) (d + k * 4) (s + k * 4)
unfolding fours copy
fours-copy zero src dst d s p q = ground arith
fours-copy (suc k) src dst d s p q = ground (
  arith,
  four-cursor src dst d s,
  fours-copy k src (copy 4 dst d src s) (d + 4) (s + 4),
  copy-add 4 (k * 4) dst d src s,
)

quarter : (n : ℕ) → n < 2 ^ 32 → bit_and n (2 ^ 32 - 1 - 3) / 4 ≡ n / 4
quarter n h = omega (
  arith,
  bit_and_halves n 0xffff_fffc,
  bit_and_halves (n / 2) 0x7fff_fffe,
  bit_and_ones 30 (n / 2 / 2),
)

low_two : (n : ℕ) → bit_and n 3 ≡ n % 4
low_two n = bit_and_ones 2 n

rest-copy :
    (m : ℕ) (src dst : List ℕ) (d s : ℕ)
    → m < 4
    → d + m < 2 ^ 32
    → s + m < 2 ^ 32
    → (rest m src (cursor dst d s)).dst ≡ copy m dst d src s
unfolding rest one copy
rest-copy zero src dst d s h p q = refl
rest-copy (suc zero) src dst d s h p q = refl
rest-copy (suc (suc zero)) src dst d s h p q = ground arith
rest-copy (suc (suc (suc zero))) src dst d s h p q = ground arith
rest-copy (suc (suc (suc (suc m)))) src dst d s h p q = absurd (omega arith)

-- The unrolled loop with its remainder copies `n` words.
pub straight-copy :
    (n : ℕ) (src dst : List ℕ) (d s : ℕ)
    → d + n < 2 ^ 32
    → s + n < 2 ^ 32
    → (straight n src (cursor dst d s)).dst ≡ copy n dst d src s
unfolding straight
straight-copy n src dst d s p q =
    rw
      (
        quarter n (omega arith),
        low_two n,
        fours-copy (n / 4) src dst d s (omega arith) (omega arith),
      )
      (rest-copy (n % 4) src (copy (n / 4 * 4) dst d src s) (d + n / 4 * 4) (s + n / 4 * 4)
          (omega arith) (omega arith) (omega arith)
        ∙ sym (copy-add (n / 4 * 4) (n % 4) dst d src s)
        ∙ ap (λ (t : ℕ). copy t dst d src s) (omega arith))

pub length-copy :
    (n : ℕ) (dst : List ℕ) (d : ℕ) (src : List ℕ) (s : ℕ) → length (copy n dst d src s) ≡ length dst
unfolding copy
length-copy zero dst d src s = refl
length-copy (suc n) dst d src s =
    length-copy n (assign dst d src s) (d + 1) src (s + 1) ∙ length-set dst d (get_or src s 0)

-- A copy leaves what lies before and behind its run.
pub get_or-copy_outside :
    (n : ℕ) (dst : List ℕ) (d : ℕ) (src : List ℕ) (s j : ℕ)
    → (j < d) ⊎ (d + n ≤ j)
    → get_or (copy n dst d src s) j 0 ≡ get_or dst j 0
unfolding copy
get_or-copy_outside zero dst d src s j h = refl
get_or-copy_outside (suc n) dst d src s j h =
    get_or-copy_outside n (assign dst d src s) (d + 1) src (s + 1) j (ground arith)
    ∙ get_or-set_ne dst d j (get_or src s 0) 0 (ground arith)

-- A copy puts the words of the source into its run, in order.
pub get_or-copy_inside :
    (n : ℕ) (dst : List ℕ) (d : ℕ) (src : List ℕ) (s i : ℕ)
    → i < n
    → d + n ≤ length dst
    → get_or (copy n dst d src s) (d + i) 0 ≡ get_or src (s + i) 0
unfolding copy
get_or-copy_inside zero dst d src s i h fits = elim h [ ]
get_or-copy_inside (suc n) dst d src s zero h fits =
    rw (add-zero d, add-zero s)
      (get_or-copy_outside n (assign dst d src s) (d + 1) src (s + 1) d (inl (omega arith))
        ∙ get_or-set_self dst d (get_or src s 0) 0 (omega arith))
get_or-copy_inside (suc n) dst d src s (suc i) h fits =
    rw (← next d i, ← next s i)
      (get_or-copy_inside n (assign dst d src s) (d + 1) src (s + 1) i (omega arith)
        (omega (arith, length-set dst d (get_or src s 0))))
  where
    next : (p i : ℕ) → p + 1 + i ≡ p + suc i
    next p i = omega arith
