-- ===== src/Ring/Concurrent/Reached.antt =====
-- What holds in every state that is reached, and who goes on in it.
use rte_demo.Prelude.{
  ℕ, ◌+◌, ◌^◌, ◌<◌, ◌≡◌, refl, sym, ap, ◌⊎◌, inl, inr, arith, List, ltb, ==_iff, Bool-cases,
}
use rte_demo.Ring.Concurrent.{
  Shared, Phase, idle, p_start, p_head, p_room, p_copy, c_start, c_head, c_room, c_copy, word, act,
  System, Step, enqueue, dequeue, access, fresh, Reach, begin, later,
}
use rte_demo.Ring.Concurrent.Ranges.{InRange}
use rte_demo.Ring.Concurrent.Owners.{p_range, Own, IsSound}
use rte_demo.Ring.Concurrent.Acts.{quiet-Moves}
use rte_demo.Ring.Concurrent.Order.{act-Moves, moved-IsSound}

module _ (order capacity : ℕ) (small : order < 32) (spare : capacity < 2 ^ order) where
  Step-IsSound :
      (v w : System) → Step order capacity v w → IsSound order capacity v → IsSound order capacity w
  Step-IsSound v w (enqueue t objs b e) h =
      moved-IsSound order capacity small spare v t v.shared (p_start objs b) h (
        rw e (
          quiet-Moves order capacity v.shared idle (p_start objs b) (refl, refl) (refl, refl) h.calm
            tt))
  Step-IsSound v w (dequeue t max b e) h =
      moved-IsSound order capacity small spare v t v.shared (c_start max b) h (
        rw e (
          quiet-Moves order capacity v.shared idle (c_start max b) (refl, refl) (refl, refl) h.calm
            tt))
  Step-IsSound v w (access t in_time) h =
      moved-IsSound order capacity small spare v t (act order capacity v.shared (v.threads t)).0
        (act order capacity v.shared (v.threads t)).1 h
        (act-Moves order capacity small spare v.shared h.calm (v.threads t) (h.own t) in_time)

  fresh-IsSound : (start : ℕ) (slots : ℕ → ℕ) → IsSound order capacity (fresh start slots)
  fresh-IsSound start slots = record {
    calm = record {
      taken = omega arith;
      ready = omega arith;
      begun = omega arith;
      bounded = omega arith;
      stored = λ i a b. absurd (omega (arith, a, b));
    };
    own = λ t. tt;
    p_apart = λ t u ne. inl refl;
    c_apart = λ t u ne. inl refl;
    p_owned = λ j a b. absurd (omega (arith, a, b));
    c_owned = λ j a b. absurd (omega (arith, a, b));
  }

-- On a ring of 2 ^ order slots and a smaller capacity, begun empty with its indices anywhere, let any
-- number of threads enqueue and dequeue in any order of their accesses, none of them overtaken by
-- 2 ^ 32 objects between its read of a head and its swap. Then the counters are in order and never
-- more than the capacity apart, and the slots between the tails hold the objects that were put
-- there. No place belongs to two threads; each place between a tail and its head belongs to one: a
-- producer has written there what it was given, as far as it has come, and what a consumer has read
-- are the objects put at its places, in their order.
pub Reach-IsSound :
    (order capacity start : ℕ) (slots : ℕ → ℕ) (w : System)
    → order < 32
    → capacity < 2 ^ order
    → Reach order capacity start slots w
    → IsSound order capacity w
Reach-IsSound order capacity start slots w small spare begin =
    fresh-IsSound order capacity small spare start slots
Reach-IsSound order capacity start slots w small spare (later {v} r step) =
    Step-IsSound order capacity small spare v w step
      (Reach-IsSound order capacity start slots v small spare r)

-- What a thread does next that owns the place at the tail: it copies an object, or it moves the tail.
abbrev pub Advances : (order capacity : ℕ) → Shared → Phase → Type 0
Advances order capacity s p =
    (objs : List ℕ) × (n : ℕ) × (i : ℕ) × (p ≡ p_copy objs s.prod_tail n i)
    × (((i < n) × ((act order capacity s p).1 ≡ p_copy objs s.prod_tail n (i + 1)))
        ⊎ ((i ≡ n)
            × ((act order capacity s p).0.prod_tail ≡ s.prod_tail + n)
            × ((act order capacity s p).1 ≡ idle)))

p_owner :
    (order capacity : ℕ) (s : Shared) (p : Phase)
    → Own order capacity s p
    → InRange s.prod_tail (p_range p)
    → Advances order capacity s p
unfolding act
p_owner order capacity s idle o h = absurd (omega (arith, h))
p_owner order capacity s (p_start objs b) o h = absurd (omega (arith, h))
p_owner order capacity s (p_head objs b old) o h = absurd (omega (arith, h))
p_owner order capacity s (p_room objs b old seen n) o h = absurd (omega (arith, h))
p_owner order capacity s (p_copy objs old n i) o h = (
  objs,
  n,
  i,
  ap (λ (t : ℕ). p_copy objs t n i) here,
  elim (Bool-cases (ltb i n)) [
    | inl e ↦ inl (ground (arith, e), rw e (ap (λ (t : ℕ). p_copy objs t n (i + 1)) here))
    | inr e ↦ inr (
      ground (arith, e, o.upto),
      rw (e, (==_iff (word s.prod_tail) (word old)).1 (ap word (sym here)))
          (ap (λ (t : ℕ). t + n) here),
      rw (e, (==_iff (word s.prod_tail) (word old)).1 (ap word (sym here))) refl,
    )
  ],
)
  where
    here : old ≡ s.prod_tail
    here = omega (arith, h, o.from)
p_owner order capacity s (c_start max b) o h = absurd (omega (arith, h))
p_owner order capacity s (c_head max b old) o h = absurd (omega (arith, h))
p_owner order capacity s (c_room max b old seen n) o h = absurd (omega (arith, h))
p_owner order capacity s (c_copy old n got) o h = absurd (omega (arith, h))

-- In every state that is reached in which places are reserved but not published, there is a producer
-- whose places begin at the tail, and its next access copies an object of its or moves the tail
-- behind its places: the waits of the others for the tail are never in vain.
pub tail_advances_lem :
    (order capacity start : ℕ) (slots : ℕ → ℕ) (w : System)
    → order < 32
    → capacity < 2 ^ order
    → Reach order capacity start slots w
    → w.shared.prod_tail < w.shared.prod_head
    → (t : ℕ) × Advances order capacity w.shared (w.threads t)
tail_advances_lem order capacity start slots w small spare r behind =
    let v = Reach-IsSound order capacity start slots w small spare r in
    let (t, h) = v.p_owned w.shared.prod_tail (omega arith) behind in
    (t, p_owner order capacity w.shared (w.threads t) (v.own t) h)
