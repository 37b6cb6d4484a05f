-- ===== src/Lock/Spinlock/Threads.antt =====
-- The threads of a recursive spinlock other than the one that moves: what they claim, and that
-- their ids differ from its own.
use rte_demo.Prelude.{
  ℕ, suc, ◌+◌, ◌^◌, ◌≤◌, ◌<◌, ◌≡◌, refl, sym, ◌⊎◌, inl, inr, dec_lt, arith, List, [], ◌∷◌, ◌++◌,
}
use rte_demo.Lock.Spinlock.{Phase, outside, Thread}
use rte_demo.Lock.Spinlock.Owners.{within, claim, depth, Proper, insiders, claims, depths}

-- No thread of the list has this id.
abbrev pub IsNew : ℕ → List Thread → Type 0
IsNew id [] = Unit
IsNew id (t ∷ ts) = (¬ (t.id ≡ id)) × IsNew id ts

-- The ids are those of different threads.
abbrev pub Distinct : List Thread → Type 0
Distinct [] = Unit
Distinct (t ∷ ts) = (t.id < 2 ^ 31) × IsNew t.id ts × Distinct ts

abbrev pub AllProper : List Thread → Type 0
AllProper [] = Unit
AllProper (t ∷ ts) = Proper t.phase × AllProper ts

-- A thread that is not inside claims and locked nothing.
outsider : (id : ℕ) (p : Phase) → within p ≡ 0 → (claim id p ≡ 0) × (depth p ≡ 0)
outsider id outside h = (refl, refl)
outsider id Phase.exchange h = (refl, refl)
outsider id Phase.polling h = (refl, refl)
outsider id Phase.trial h = (refl, refl)
outsider id Phase.entered h = absurd (omega arith)
outsider id (Phase.counting d) h = absurd (omega arith)
outsider id (Phase.held d) h = absurd (omega arith)
outsider id Phase.released h = absurd (omega arith)
outsider id Phase.leaving h = absurd (omega arith)

pub outsiders : (ts : List Thread) → insiders ts ≡ 0 → (claims ts ≡ 0) × (depths ts ≡ 0)
outsiders [] h = (refl, refl)
outsiders (t ∷ ts) h =
    let (c, d) = outsider t.id t.phase (omega arith) in
    let (cs, ds) = outsiders ts (omega arith) in (omega arith, omega arith)

claim-bounds : (id : ℕ) (p : Phase) → (claim id p ≡ 0) ⊎ (claim id p ≡ suc id)
claim-bounds id outside = inl refl
claim-bounds id Phase.exchange = inl refl
claim-bounds id Phase.polling = inl refl
claim-bounds id Phase.trial = inl refl
claim-bounds id Phase.entered = inl refl
claim-bounds id (Phase.counting d) = inr refl
claim-bounds id (Phase.held d) = inr refl
claim-bounds id Phase.released = inr refl
claim-bounds id Phase.leaving = inl refl

-- With at most one thread inside, the sum of the claims is not that of an id that is not there.
pub claims-IsNew :
    (id : ℕ) (ts : List Thread) → IsNew id ts → insiders ts ≤ 1 → ¬ (claims ts ≡ suc id)
claims-IsNew id [] m h e = absurd (omega arith)
claims-IsNew id (t ∷ ts) (m, ms) h e = elim (dec_lt 0 (within t.phase)) [
  | no q ↦
      claims-IsNew id ts ms (omega arith) (omega (arith, (outsider t.id t.phase (omega arith)).0))
  | yes q ↦
      let (none, _) = outsiders ts (omega arith) in
      elim (claim-bounds t.id t.phase) [ inl z ↦ absurd (omega arith) | inr s ↦ m (omega arith) ]
]

pub claims-le : (ts : List Thread) → Distinct ts → insiders ts ≤ 1 → claims ts ≤ 2 ^ 31
claims-le [] v h = omega arith
claims-le (t ∷ ts) (small, new, v) h = elim (dec_lt 0 (within t.phase)) [
  | no q ↦ omega (arith, (outsider t.id t.phase (omega arith)).0, claims-le ts v (omega arith))
  | yes q ↦
      let (none, _) = outsiders ts (omega arith) in
      elim (claim-bounds t.id t.phase) [ inl z ↦ omega arith | inr s ↦ omega arith ]
]

-- The thread that moves, and the others.
module _ (t : Thread) where
  pub insiders-middle :
      (xs ys : List Thread) → insiders (xs ++ t ∷ ys) ≡ insiders (xs ++ ys) + within t.phase
  insiders-middle [] ys = omega arith
  insiders-middle (x ∷ xs) ys = omega (arith, insiders-middle xs ys)

  pub claims-middle :
      (xs ys : List Thread) → claims (xs ++ t ∷ ys) ≡ claims (xs ++ ys) + claim t.id t.phase
  claims-middle [] ys = omega arith
  claims-middle (x ∷ xs) ys = omega (arith, claims-middle xs ys)

  pub depths-middle :
      (xs ys : List Thread) → depths (xs ++ t ∷ ys) ≡ depths (xs ++ ys) + depth t.phase
  depths-middle [] ys = omega arith
  depths-middle (x ∷ xs) ys = omega (arith, depths-middle xs ys)

  pub Proper-middle : (xs ys : List Thread) → AllProper (xs ++ t ∷ ys) → Proper t.phase
  Proper-middle [] ys (m, ms) = m
  Proper-middle (x ∷ xs) ys (m, ms) = Proper-middle xs ys ms

  IsNew-others :
      (id : ℕ) (xs ys : List Thread)
      → IsNew id (xs ++ t ∷ ys)
      → (¬ (t.id ≡ id)) × IsNew id (xs ++ ys)
  IsNew-others id [] ys (m, ms) = (m, ms)
  IsNew-others id (x ∷ xs) ys (m, ms) =
      let (here, rest) = IsNew-others id xs ys ms in (here, (m, rest))

  pub Distinct-others :
      (xs ys : List Thread)
      → Distinct (xs ++ t ∷ ys)
      → (t.id < 2 ^ 31) × IsNew t.id (xs ++ ys) × Distinct (xs ++ ys)
  Distinct-others [] ys v = v
  Distinct-others (x ∷ xs) ys (small, new, v) =
      let (here, rest) = IsNew-others x.id xs ys new in
      let (small', new', v') = Distinct-others xs ys v in
      (small', ((λ e. here (sym e)), new'), (small, rest, v'))

-- The same thread in another phase.
module _ (id : ℕ) (p q : Phase) where
  pub AllProper-replace :
      (xs ys : List Thread)
      → AllProper (xs ++ record { id = id; phase = p } ∷ ys)
      → Proper q
      → AllProper (xs ++ record { id = id; phase = q } ∷ ys)
  AllProper-replace [] ys (m, ms) k = (k, ms)
  AllProper-replace (x ∷ xs) ys (m, ms) k = (m, AllProper-replace xs ys ms k)

  IsNew-replace :
      (new : ℕ) (xs ys : List Thread)
      → IsNew new (xs ++ record { id = id; phase = p } ∷ ys)
      → IsNew new (xs ++ record { id = id; phase = q } ∷ ys)
  IsNew-replace new [] ys m = m
  IsNew-replace new (x ∷ xs) ys (m, ms) = (m, IsNew-replace new xs ys ms)

  pub Distinct-replace :
      (xs ys : List Thread)
      → Distinct (xs ++ record { id = id; phase = p } ∷ ys)
      → Distinct (xs ++ record { id = id; phase = q } ∷ ys)
  Distinct-replace [] ys v = v
  Distinct-replace (x ∷ xs) ys (small, new, v) =
      (small, IsNew-replace x.id xs ys new, Distinct-replace xs ys v)
