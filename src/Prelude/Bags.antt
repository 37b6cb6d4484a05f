-- ===== src/Prelude/Bags.antt =====
-- The total weight of the objects in a list, and in the parts of a list: with the weight 1 it is the
-- length, with the weight 1 for one object and 0 for all others it is how often that one occurs.
use Prim.Native.Nat.{ℕ, zero, suc, ◌+◌, ◌<◌}
use mathlib.Core.Path.{◌≡◌, refl, ap}
use mathlib.Core.List.{List, [], ◌∷◌, ◌++◌}
use native.Mathlib.Nat.{zero-add}
use native.Mathlib.Omega.{arith}
use rte_demo.Prelude.Lists.{length, get_or, take, drop}

suc_plus : (m n : ℕ) → suc m + n ≡ suc (m + n)
suc_plus m n = omega arith

abbrev pub weigh : (ℕ → ℕ) → List ℕ → ℕ
weigh f [] = 0
weigh f (x ∷ xs) = f x + weigh f xs

pub weigh-append : (f : ℕ → ℕ) (xs ys : List ℕ) → weigh f (xs ++ ys) ≡ weigh f xs + weigh f ys
weigh-append f [] ys = omega arith
weigh-append f (x ∷ xs) ys = omega (arith, weigh-append f xs ys)

pub weigh-take-drop :
    (f : ℕ → ℕ) (n : ℕ) (xs : List ℕ) → weigh f (take n xs) + weigh f (drop n xs) ≡ weigh f xs
weigh-take-drop f zero xs = omega arith
weigh-take-drop f (suc n) [] = omega arith
weigh-take-drop f (suc n) (x ∷ xs) = omega (arith, weigh-take-drop f n xs)

pub weigh-take_add :
    (f : ℕ → ℕ) (m n : ℕ) (xs : List ℕ)
    → weigh f (take (m + n) xs) ≡ weigh f (take m xs) + weigh f (take n (drop m xs))
weigh-take_add f zero n xs = rw (zero-add n) (omega arith)
weigh-take_add f (suc m) zero [] = rw (suc_plus m 0) (omega arith)
weigh-take_add f (suc m) (suc n) [] = rw (suc_plus m (suc n)) (omega arith)
weigh-take_add f (suc m) n (x ∷ xs) = rw (suc_plus m n) (omega (arith, weigh-take_add f m n xs))

pub weigh-take-suc :
    (f : ℕ → ℕ) (n : ℕ) (xs : List ℕ)
    → n < length xs
    → weigh f (take (suc n) xs) ≡ weigh f (take n xs) + weigh f (get_or xs n 0 ∷ [])
weigh-take-suc f n [] h = elim h [ ]
weigh-take-suc f zero (x ∷ xs) h = omega arith
weigh-take-suc f (suc n) (x ∷ xs) h = omega (arith, weigh-take-suc f n xs (omega arith))

-- A prefix of an appended list.
pub take-append {ℓ} :
    {A : Type ℓ} (xs ys : List A) (n : ℕ) → take (length xs + n) (xs ++ ys) ≡ xs ++ take n ys
take-append [] ys n = rw zero-add
take-append (x ∷ xs) ys n = rw (suc_plus (length xs) n, take-append xs ys n)

pub drop-append {ℓ} :
    {A : Type ℓ} (xs ys : List A) (n : ℕ) → drop (length xs + n) (xs ++ ys) ≡ drop n ys
drop-append [] ys n = rw zero-add
drop-append (x ∷ xs) ys n = rw (suc_plus (length xs) n) (drop-append xs ys n)

-- The same where the length is known.
module _ {ℓ} {A : Type ℓ} where
  pub take-append_of_length :
      (xs ys : List A) (k n : ℕ) → length xs ≡ k → take (k + n) (xs ++ ys) ≡ xs ++ take n ys
  take-append_of_length xs ys k n e = rw (← e) (take-append xs ys n)

  pub drop-append_of_length :
      (xs ys : List A) (k n : ℕ) → length xs ≡ k → drop (k + n) (xs ++ ys) ≡ drop n ys
  drop-append_of_length xs ys k n e = rw (← e) (drop-append xs ys n)

  pub take-append_self : (xs ys : List A) (k : ℕ) → length xs ≡ k → take k (xs ++ ys) ≡ xs
  take-append_self [] ys zero e = refl
  take-append_self [] ys (suc k) e = absurd (omega arith)
  take-append_self (x ∷ xs) ys zero e = absurd (omega arith)
  take-append_self (x ∷ xs) ys (suc k) e = ap (◌∷◌ x) (take-append_self xs ys k (omega arith))

pub length-weigh : (xs : List ℕ) → weigh (λ x. 1) xs ≡ length xs
length-weigh [] = refl
length-weigh (x ∷ xs) = omega (arith, length-weigh xs)
