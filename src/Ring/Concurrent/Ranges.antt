-- ===== src/Ring/Concurrent/Ranges.antt =====
-- Slots and ranges of places.
use native.Mathlib.Nat.{mod-mod_of_dvd, dvd-mul_left, div-add-mod, mul-le-mul_left, mul-add}
use Prim.Native.Nat.{◌∣◌}
use mathlib.Core.Path.{subst}
use rte_demo.Prelude.{
  ℕ, zero, suc, ◌+◌, ◌-◌, ◌/◌, ◌%◌, ◌^◌, ◌≤◌, ◌<◌, ◌≡◌, ◌≢◌, refl, sym, ◌∙◌, ◌⊎◌, inl, inr, arith,
  List, [], ◌∷◌, ◌++◌, length, get_or, dec_lt,
}
use rte_demo.Word.Bits.{bit_and_ones}
use rte_demo.Word.Smear.{two_pow_split}
use rte_demo.Ring.Types.{Behavior, fixed, variable}
use rte_demo.Ring.Transfer.{granted}
use rte_demo.Ring.Concurrent.{word, slot}

-- Two places less than a table apart are in different slots.
pub mod-ne : (m x y : ℕ) → x < y → y < x + m → x % m ≢ y % m
mod-ne m x y h k e = elim (dec_lt (x / m) (y / m)) [
  | yes p ↦ absurd (
      omega (
        arith,
        div-add-mod x m,
        div-add-mod y m,
        e,
        mul-le-mul_left {m = x / m + 1} {n = y / m} m (omega arith),
        mul-add m (x / m) 1,
      ))
  | no p ↦ absurd (
      omega (
        arith,
        div-add-mod x m,
        div-add-mod y m,
        e,
        mul-le-mul_left {m = y / m} {n = x / m} m (omega arith),
      ))
]

pub slot_lem : (order x : ℕ) → order < 32 → slot order x ≡ x % 2 ^ order
slot_lem order x h = bit_and_ones order (word x) ∙ mod-mod_of_dvd (2 ^ order) x divides
  where
    divides : 2 ^ order ∣ 2 ^ 32
    divides =
        subst (λ (m : ℕ). 2 ^ order ∣ m) (sym (two_pow_split 32 order (omega arith)))
          (dvd-mul_left (2 ^ order) (2 ^ (32 - order)))

pub slot-ne : (order x y : ℕ) → order < 32 → x < y → y < x + 2 ^ order → slot order x ≢ slot order y
slot-ne order x y small h k e =
    mod-ne (2 ^ order) x y h k (sym (slot_lem order x small) ∙ e ∙ slot_lem order y small)

-- No more is granted than there is and than is asked for.
pub granted-le : (b : Behavior) (n free : ℕ) → (granted b n free ≤ free) × (granted b n free ≤ n)
unfolding granted
granted-le fixed n free = ground arith
granted-le variable n free = ground arith

-- A range of `l` places from `o` on, and two ranges that share none.
abbrev pub Disjoint : ℕ × ℕ → ℕ × ℕ → Type 0
Disjoint (o, l) (o', l') = (l ≡ 0) ⊎ (l' ≡ 0) ⊎ (o + l ≤ o') ⊎ (o' + l' ≤ o)

pub Disjoint-sym : (o l o' l' : ℕ) → Disjoint (o, l) (o', l') → Disjoint (o', l') (o, l)
Disjoint-sym o l o' l' (inl e) = inr (inl e)
Disjoint-sym o l o' l' (inr (inl e)) = inl e
Disjoint-sym o l o' l' (inr (inr (inl h))) = inr (inr (inr h))
Disjoint-sym o l o' l' (inr (inr (inr h))) = inr (inr (inl h))

pub get_or-append_left :
    (xs : List ℕ) (x k : ℕ) → k < length xs → get_or (xs ++ (x ∷ [])) k 0 ≡ get_or xs k 0
get_or-append_left [] x k h = elim h [ ]
get_or-append_left (y ∷ xs) x zero h = refl
get_or-append_left (y ∷ xs) x (suc k) h = get_or-append_left xs x k (omega arith)

pub get_or-append_last : (xs : List ℕ) (x : ℕ) → get_or (xs ++ (x ∷ [])) (length xs) 0 ≡ x
get_or-append_last [] x = refl
get_or-append_last (y ∷ xs) x = get_or-append_last xs x

-- A place is in a range, or it is not.
abbrev pub InRange : ℕ → ℕ × ℕ → Type 0
InRange j (o, l) = (o ≤ j) × (j < o + l)

abbrev pub OffRange : ℕ → ℕ × ℕ → Type 0
OffRange j (o, l) = (j < o) ⊎ (o + l ≤ j)

pub InRange-cases : (j o l : ℕ) → InRange j (o, l) ⊎ OffRange j (o, l)
InRange-cases j o l = elim (dec_lt j o) [
  | yes h ↦ inr (inl h)
  | no h ↦ elim (dec_lt j (o + l)) [
    | yes k ↦ inl (omega (arith, h), k)
    | no k ↦ inr (inr (omega (arith, k)))
  ]
]
