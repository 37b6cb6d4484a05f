-- ===== src/Ring/Concurrent/Owners.antt =====
-- What each thread owns, and that the accesses of the others leave it alone.
use rte_demo.Prelude.{ℕ, ◌+◌, ◌≤◌, ◌<◌, ◌≡◌, ◌≢◌, sym, ◌∙◌, arith, List, length, get_or}
use rte_demo.Ring.Concurrent.{
  Shared, Phase, idle, p_start, p_head, p_room, p_copy, c_start, c_head, c_room, c_copy, slot,
  free_entries, entries, System,
}
use rte_demo.Ring.Concurrent.Ranges.{Disjoint, InRange}

-- The places that a producer fills and those that a consumer empties.
abbrev pub p_range : Phase → ℕ × ℕ
p_range (p_copy objs old n i) = (old, n)
p_range _ = (0, 0)

abbrev pub c_range : Phase → ℕ × ℕ
c_range (c_copy old n got) = (old, n)
c_range _ = (0, 0)

-- A producer that owns the places from `old` to `old + n` and has written `i` of its objects.
pub record Writes (order : ℕ) (s : Shared) (objs : List ℕ) (old n i : ℕ) : Type 0 where
  pub from : s.prod_tail ≤ old
  pub to : old + n ≤ s.prod_head
  pub some : 0 < n
  pub upto : i ≤ n
  pub within : n ≤ length objs
  pub done : (k : ℕ) → k < i → s.sent (old + k) ≡ get_or objs k 0
  pub kept : (k : ℕ) → k < i → s.slots (slot order (old + k)) ≡ s.sent (old + k)

-- A consumer that owns the places from `old` to `old + n` and has read the objects `got`.
pub record Reads (s : Shared) (old n : ℕ) (got : List ℕ) : Type 0 where
  pub from : s.cons_tail ≤ old
  pub to : old + n ≤ s.cons_head
  pub some : 0 < n
  pub upto : length got ≤ n
  pub right : (k : ℕ) → k < length got → get_or got k 0 ≡ s.sent (old + k)

module _ (order capacity : ℕ) where
  abbrev pub Own : Shared → Phase → Type 0
  Own s idle = Unit
  Own s (p_start objs b) = Unit
  Own s (p_head objs b old) = (old ≤ s.prod_head) × (old ≤ s.cons_tail + capacity)
  Own s (p_room objs b old seen n) =
      (old ≤ s.prod_head)
      × (old ≤ seen + capacity)
      × (seen ≤ s.cons_tail)
      × (0 < n)
      × (n ≤ free_entries capacity seen old)
      × (n ≤ length objs)
  Own s (p_copy objs old n i) = Writes order s objs old n i
  Own s (c_start max b) = Unit
  Own s (c_head max b old) = old ≤ s.cons_head
  Own s (c_room max b old seen n) =
      (old ≤ s.cons_head) × (old ≤ seen) × (seen ≤ s.prod_tail) × (0 < n) × (n ≤ entries seen old)
  Own s (c_copy old n got) = Reads s old n got

  -- The four counters in order, and what is stored between the tails.
  pub record IsCalm (s : Shared) : Type 0 where
    pub taken : s.cons_tail ≤ s.cons_head
    pub ready : s.cons_head ≤ s.prod_tail
    pub begun : s.prod_tail ≤ s.prod_head
    pub bounded : s.prod_head ≤ s.cons_tail + capacity
    pub stored : (i : ℕ) → s.cons_tail ≤ i → i < s.prod_tail → s.slots (slot order i) ≡ s.sent i

  pub record IsSound (w : System) : Type 0 where
    pub calm : IsCalm w.shared
    pub own : (t : ℕ) → Own w.shared (w.threads t)
    pub p_apart : (t u : ℕ) → t ≢ u → Disjoint (p_range (w.threads t)) (p_range (w.threads u))
    pub c_apart : (t u : ℕ) → t ≢ u → Disjoint (c_range (w.threads t)) (c_range (w.threads u))
    pub p_owned :
        (j : ℕ)
        → w.shared.prod_tail ≤ j
        → j < w.shared.prod_head
        → (t : ℕ) × InRange j (p_range (w.threads t))
    pub c_owned :
        (j : ℕ)
        → w.shared.cons_tail ≤ j
        → j < w.shared.cons_head
        → (t : ℕ) × InRange j (c_range (w.threads t))

  -- No counter goes back.
  pub record Grows (s s' : Shared) : Type 0 where
    pub prod_head : s.prod_head ≤ s'.prod_head
    pub prod_tail : s.prod_tail ≤ s'.prod_tail
    pub cons_head : s.cons_head ≤ s'.cons_head
    pub cons_tail : s.cons_tail ≤ s'.cons_tail

  -- What is asked of an access for the sake of a thread with these ranges.
  pub record Spares (s s' : Shared) (p c : ℕ × ℕ) : Type 0 where
    pub p_from : 0 < p.1 → s.prod_tail ≤ p.0 → p.0 + p.1 ≤ s.prod_head → s'.prod_tail ≤ p.0
    pub c_from : 0 < c.1 → s.cons_tail ≤ c.0 → c.0 + c.1 ≤ s.cons_head → s'.cons_tail ≤ c.0
    pub p_sent : (j : ℕ) → s.prod_tail ≤ j → p.0 ≤ j → j < p.0 + p.1 → s'.sent j ≡ s.sent j
    pub p_slots :
        (j : ℕ)
        → s.prod_tail ≤ j
        → j < s.prod_head
        → p.0 ≤ j
        → j < p.0 + p.1
        → s'.slots (slot order j) ≡ s.slots (slot order j)
    pub c_sent : (j : ℕ) → j < s.cons_head → s'.sent j ≡ s.sent j

  pub Own-Spares :
      (s s' : Shared) (q : Phase)
      → Grows s s'
      → Spares s s' (p_range q) (c_range q)
      → Own s q
      → Own s' q
  Own-Spares s s' idle g f v = tt
  Own-Spares s s' (p_start objs b) g f v = tt
  Own-Spares s s' (p_head objs b old) g f v =
      (omega (arith, g.prod_head, v.0), omega (arith, g.cons_tail, v.1))
  Own-Spares s s' (p_room objs b old seen n) g f v =
      (omega (arith, g.prod_head, v.0), v.1, omega (arith, g.cons_tail, v.2), v.3, v.4, v.5)
  Own-Spares s s' (p_copy objs old n i) g f v = record {
    from = f.p_from v.some v.from v.to;
    to = omega (arith, g.prod_head, v.to);
    some = v.some;
    upto = v.upto;
    within = v.within;
    done = λ k h.
        f.p_sent (old + k) (omega (arith, v.from)) (omega arith) (omega (arith, h, v.upto))
        ∙ v.done k h;
    kept = λ k h.
        f.p_slots (old + k) (omega (arith, v.from)) (omega (arith, h, v.upto, v.to)) (omega arith)
          (omega (arith, h, v.upto))
        ∙ v.kept k h
        ∙ sym (f.p_sent (old + k) (omega (arith, v.from)) (omega arith) (omega (arith, h, v.upto)));
  }
  Own-Spares s s' (c_start max b) g f v = tt
  Own-Spares s s' (c_head max b old) g f v = omega (arith, g.cons_head, v)
  Own-Spares s s' (c_room max b old seen n) g f v =
      (omega (arith, g.cons_head, v.0), v.1, omega (arith, g.prod_tail, v.2), v.3, v.4)
  Own-Spares s s' (c_copy old n got) g f v = record {
    from = f.c_from v.some v.from v.to;
    to = omega (arith, g.cons_head, v.to);
    some = v.some;
    upto = v.upto;
    right = λ k h. v.right k h ∙ sym (f.c_sent (old + k) (omega (arith, h, v.upto, v.to)));
  }
