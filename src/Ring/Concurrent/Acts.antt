-- ===== src/Ring/Concurrent/Acts.antt =====
-- Each access keeps the order of the ring, gives its thread what it then owns, and leaves alone what
-- the other threads own.
use rte_demo.Prelude.{ℕ, ◌≤◌, ◌<◌, ◌≡◌, refl, ◌⊎◌, inl, inr, arith}
use rte_demo.Ring.Concurrent.{Shared, Phase}
use rte_demo.Ring.Concurrent.Ranges.{Disjoint, InRange, OffRange, InRange-cases}
use rte_demo.Ring.Concurrent.Owners.{p_range, c_range, Own, IsCalm, Grows, Spares}

module _ (order capacity : ℕ) where
  -- What an access does that leads a thread from `p` to `p'`.
  pub record Moves (s : Shared) (p : Phase) (s' : Shared) (p' : Phase) : Type 0 where
    pub calm : IsCalm order capacity s'
    pub own : Own order capacity s' p'
    pub grows : Grows order capacity s s'
    pub spares :
        (q : Phase)
        → Own order capacity s q
        → Disjoint (p_range p) (p_range q)
        → Disjoint (c_range p) (c_range q)
        → Spares order capacity s s' (p_range q) (c_range q)
    pub p_kept :
        (q : Phase)
        → Own order capacity s q
        → Disjoint (p_range p) (p_range q)
        → Disjoint (p_range p') (p_range q)
    pub c_kept :
        (q : Phase)
        → Own order capacity s q
        → Disjoint (c_range p) (c_range q)
        → Disjoint (c_range p') (c_range q)
    pub p_cover :
        (j : ℕ)
        → s'.prod_tail ≤ j
        → j < s'.prod_head
        → InRange j (p_range p') ⊎ ((s.prod_tail ≤ j) × (j < s.prod_head) × OffRange j (p_range p))
    pub c_cover :
        (j : ℕ)
        → s'.cons_tail ≤ j
        → j < s'.cons_head
        → InRange j (c_range p') ⊎ ((s.cons_tail ≤ j) × (j < s.cons_head) × OffRange j (c_range p))

  Grows-refl : (s : Shared) → Grows order capacity s s
  Grows-refl s = record {
    prod_head = omega arith;
    prod_tail = omega arith;
    cons_head = omega arith;
    cons_tail = omega arith;
  }

  Spares-refl : (s : Shared) (p c : ℕ × ℕ) → Spares order capacity s s p c
  Spares-refl s p c = record {
    p_from = λ a b d. b;
    c_from = λ a b d. b;
    p_sent = λ j a b d. refl;
    p_slots = λ j a b d e. refl;
    c_sent = λ j a. refl;
  }

  -- A thread that owns nothing afterwards, and changes nothing.
  pub quiet-Moves :
      (s : Shared) (p p' : Phase)
      → (p_range p ≡ (0, 0)) × (c_range p ≡ (0, 0))
      → (p_range p' ≡ (0, 0)) × (c_range p' ≡ (0, 0))
      → IsCalm order capacity s
      → Own order capacity s p'
      → Moves s p s p'
  quiet-Moves s p p' (d, g) (e, f) v own = record {
    calm = v;
    own = own;
    grows = Grows-refl s;
    spares = λ q a b c. Spares-refl s (p_range q) (c_range q);
    p_kept = λ q a b. rw e (inl refl);
    c_kept = λ q a b. rw f (inl refl);
    p_cover = λ j a b. rw (d, e) (inr (a, b, inr (omega arith)));
    c_cover = λ j a b. rw (g, f) (inr (a, b, inr (omega arith)));
  }

  -- A thread that changes nothing and owns the same ranges.
  pub stay-Moves :
      (s : Shared) (p p' : Phase)
      → p_range p' ≡ p_range p
      → c_range p' ≡ c_range p
      → IsCalm order capacity s
      → Own order capacity s p'
      → Moves s p s p'
  stay-Moves s p p' e f v own = record {
    calm = v;
    own = own;
    grows = Grows-refl s;
    spares = λ q a b c. Spares-refl s (p_range q) (c_range q);
    p_kept = λ q a b. rw e b;
    c_kept = λ q a b. rw f b;
    p_cover = λ j a b. elim (InRange-cases j (p_range p).0 (p_range p).1) [
      | inl h ↦ rw e (inl h)
      | inr h ↦ inr (a, b, h)
    ];
    c_cover = λ j a b. elim (InRange-cases j (c_range p).0 (c_range p).1) [
      | inl h ↦ rw f (inl h)
      | inr h ↦ inr (a, b, h)
    ];
  }
