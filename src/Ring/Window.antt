-- ===== src/Ring/Window.antt =====
-- What a ring's table holds, read round its end from a position on.
use mathlib.Core.Path.{ap₂}
use native.Mathlib.Nat.{sub-zero, add-zero, suc-add, mod-add-mod}
use native.Mathlib.Numerals.{add-one}
use rte_demo.Prelude.{
  ℕ, zero, suc, ◌+◌, ◌-◌, ◌%◌, ◌≤◌, ◌<◌, ◌≡◌, refl, sym, ap, ◌∙◌, arith, List, [], ◌∷◌, ◌++◌,
  length, get_or, take, drop,
}

next : (p i : ℕ) → p + 1 + i ≡ p + suc i
next p i = omega arith

drop-suc :
    (words : List ℕ) (s : ℕ)
    → s < length words
    → drop s words ≡ get_or words s 0 ∷ drop (suc s) words
drop-suc [] s h = elim h [ ]
drop-suc (x ∷ words) zero h = refl
drop-suc (x ∷ words) (suc s) h = drop-suc words s (omega arith)

-- The `n` words from position `pos` on.
unfoldable pub items : List ℕ → ℕ → ℕ → ℕ → List ℕ
items slots size pos zero = []
items slots size pos (suc n) = get_or slots (pos % size) 0 ∷ items slots size (pos + 1) n

pub items_zero : (slots : List ℕ) (size pos : ℕ) → items slots size pos 0 ≡ []
unfolding items
items_zero slots size pos = refl

pub length-items : (slots : List ℕ) (size pos n : ℕ) → length (items slots size pos n) ≡ n
unfolding items
length-items slots size pos zero = refl
length-items slots size pos (suc n) = ap suc (length-items slots size (pos + 1) n)

pub items-append :
    (slots : List ℕ) (size pos a b : ℕ)
    → items slots size pos (a + b) ≡ items slots size pos a ++ items slots size (pos + a) b
unfolding items
items-append slots size pos zero b = ground arith
items-append slots size pos (suc a) b = rw suc-add (
    ap (λ (t : List ℕ). get_or slots (pos % size) 0 ∷ t)
      (items-append slots size (pos + 1) a b
        ∙ ap (λ (t : ℕ). items slots size (pos + 1) a ++ items slots size t b) (omega arith)))

-- Two tables that agree on the positions read hold the same words.
pub items_ext :
    (slots other : List ℕ) (size pos n : ℕ)
    → ((i : ℕ) → i < n → get_or slots ((pos + i) % size) 0 ≡ get_or other ((pos + i) % size) 0)
    → items slots size pos n ≡ items other size pos n
unfolding items
items_ext slots other size pos zero h = refl
items_ext slots other size pos (suc n) h =
    ap₂ ◌∷◌ (rw (add-zero pos) at (h 0 (omega arith)))
      (items_ext slots other size (pos + 1) n (λ i p. rw (next pos i) (h (suc i) (omega arith))))

-- A table into which `n` words were written from `pos` on holds those words.
pub items-take :
    (slots words : List ℕ) (size pos s n : ℕ)
    → ((i : ℕ) → i < n → get_or slots ((pos + i) % size) 0 ≡ get_or words (s + i) 0)
    → s + n ≤ length words
    → items slots size pos n ≡ take n (drop s words)
unfolding items
items-take slots words size pos s zero h fits = refl
items-take slots words size pos s (suc n) h fits = rw (drop-suc words s (omega arith)) (
    ap₂ ◌∷◌ (rw (add-zero pos, add-zero s) at (h 0 (omega arith))) (
      items-take slots words size (pos + 1) (s + 1) n
        (λ i p. rw (next pos i, next s i) (h (suc i) (omega arith))) (omega arith)
      ∙ ap (λ (t : ℕ). take n (drop t words)) (add-one s)))

-- A position may be given modulo any multiple of the size.
pub items-mod :
    (slots : List ℕ) (size pos other n : ℕ)
    → pos % size ≡ other % size
    → items slots size pos n ≡ items slots size other n
unfolding items
items-mod slots size pos other zero h = refl
items-mod slots size pos other (suc n) h = ap₂ ◌∷◌ (ap (λ (t : ℕ). get_or slots t 0) h) (
    items-mod slots size (pos + 1) (other + 1) n
      (sym (mod-add-mod pos size 1) ∙ ap (λ (t : ℕ). (t + 1) % size) h ∙ mod-add-mod other size 1))

pub take-items :
    (slots : List ℕ) (size pos m n : ℕ)
    → m ≤ n
    → take m (items slots size pos n) ≡ items slots size pos m
unfolding items
take-items slots size pos zero n h = refl
take-items slots size pos (suc m) zero h = absurd (omega arith)
take-items slots size pos (suc m) (suc n) h =
    ap (λ (t : List ℕ). get_or slots (pos % size) 0 ∷ t)
      (take-items slots size (pos + 1) m n (omega arith))

pub drop-items :
    (slots : List ℕ) (size pos m n : ℕ)
    → m ≤ n
    → drop m (items slots size pos n) ≡ items slots size (pos + m) (n - m)
unfolding items
drop-items slots size pos zero n h =
    ap₂ (λ (x y : ℕ). items slots size x y) (sym (add-zero pos)) (sym (sub-zero n))
drop-items slots size pos (suc m) zero h = absurd (omega arith)
drop-items slots size pos (suc m) (suc n) h =
    drop-items slots size (pos + 1) m n (omega arith)
    ∙ ap₂ (λ (x y : ℕ). items slots size x y) (omega arith) (omega arith)
