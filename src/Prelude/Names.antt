-- ===== src/Prelude/Names.antt =====
-- Equality of names as C compares them: the text before the terminating zero.
use Prim.Native.Nat.{ℕ}
use mathlib.Core.Path.{◌≡◌, refl, sym, ◌∙◌}
use mathlib.Core.Logic.{inl, inr}
use mathlib.Core.Bool.{Bool, true, false}
use mathlib.Core.List.{List, [], ◌∷◌}
use native.Mathlib.Omega.{arith}
use rte_demo.Prelude.Tests.{◌==◌, ==_iff, Bool-cases, if◌then◌else◌}

-- `strcmp(a, b) == 0`, and `strncmp` on names shorter than its bound.
abbrev pub same_name : List ℕ → List ℕ → Bool
same_name [] [] = true
same_name [] (b ∷ bs) = false
same_name (a ∷ xs) [] = false
same_name (a ∷ xs) (b ∷ bs) = let rest = same_name xs bs in if a == b then rest else false

pub same_name_refl : (a : List ℕ) → same_name a a ≡ true
same_name_refl [] = refl
same_name_refl (x ∷ a) = rw ((==_iff x x).1 refl) (same_name_refl a)

pub same_name_eq : (a b : List ℕ) → same_name a b ≡ true → a ≡ b
same_name_eq [] [] e = refl
same_name_eq [] (y ∷ b) e = absurd (ground (arith, e))
same_name_eq (x ∷ a) [] e = absurd (ground (arith, e))
same_name_eq (x ∷ a) (y ∷ b) e = elim (Bool-cases (x == y)) [
  | inl h ↦ rw ((==_iff x y).0 h, same_name_eq a b (tail h e)) refl
  | inr h ↦ false_tail h e
]
  where
    head_same : (x == y) ≡ true → same_name (x ∷ a) (y ∷ b) ≡ same_name a b
    head_same h = rw h refl

    head_other : (x == y) ≡ false → same_name (x ∷ a) (y ∷ b) ≡ false
    head_other h = rw h refl

    tail : (x == y) ≡ true → same_name (x ∷ a) (y ∷ b) ≡ true → same_name a b ≡ true
    tail h p = sym (head_same h) ∙ p

    false_tail : (x == y) ≡ false → same_name (x ∷ a) (y ∷ b) ≡ true → x ∷ a ≡ y ∷ b
    false_tail h p = absurd (ground (arith, sym (head_other h) ∙ p))
