-- ===== src/Ring/Concurrent/Swaps.antt =====
-- The swaps of the two heads.
use rte_demo.Prelude.{
  ℕ, ◌+◌, ◌-◌, ◌^◌, ◌≤◌, ◌<◌, ◌≡◌, refl, ◌⊎◌, inl, inr, arith, List, [], ◌==◌, ==_iff, Bool-cases,
  true, dec_lt,
}
use rte_demo.Ring.Types.{Behavior}
use rte_demo.Ring.Transfer.{cmpset}
use rte_demo.Ring.Concurrent.{
  Shared, Phase, idle, p_start, p_head, p_room, p_copy, c_start, c_head, c_room, c_copy, word,
  free_entries, entries, swapped,
}
use rte_demo.Ring.Concurrent.Owners.{p_range, c_range, Own, IsCalm}
use rte_demo.Ring.Concurrent.Acts.{Moves}

module _ (order capacity : ℕ) where
  -- What is owned lies below the heads.
  p_below :
      (s : Shared) (q : Phase)
      → Own order capacity s q
      → ((p_range q).1 ≡ 0) ⊎ ((p_range q).0 + (p_range q).1 ≤ s.prod_head)
  p_below s idle v = inl refl
  p_below s (p_start objs b) v = inl refl
  p_below s (p_head objs b old) v = inl refl
  p_below s (p_room objs b old seen n) v = inl refl
  p_below s (p_copy objs old n i) v = inr v.to
  p_below s (c_start max b) v = inl refl
  p_below s (c_head max b old) v = inl refl
  p_below s (c_room max b old seen n) v = inl refl
  p_below s (c_copy old n got) v = inl refl

  c_below :
      (s : Shared) (q : Phase)
      → Own order capacity s q
      → ((c_range q).1 ≡ 0) ⊎ ((c_range q).0 + (c_range q).1 ≤ s.cons_head)
  c_below s idle v = inl refl
  c_below s (p_start objs b) v = inl refl
  c_below s (p_head objs b old) v = inl refl
  c_below s (p_room objs b old seen n) v = inl refl
  c_below s (p_copy objs old n i) v = inl refl
  c_below s (c_start max b) v = inl refl
  c_below s (c_head max b old) v = inl refl
  c_below s (c_room max b old seen n) v = inl refl
  c_below s (c_copy old n got) v = inr v.to

  -- The swaps.
  swapped_lem : (head old n : ℕ) → swapped head old n ≡ true → word head ≡ word old
  unfolding cmpset
  swapped_lem head old n e = elim (Bool-cases (word head == word old)) [
    | inl h ↦ (==_iff (word head) (word old)).0 h
    | inr h ↦ absurd (ground (arith, e, h))
  ]

  module _ (capacity_word : capacity < 2 ^ 32) (s : Shared) (v : IsCalm order capacity s) where
    pub p_swap-Moves :
        (objs : List ℕ) (b : Behavior) (old seen n : ℕ)
        → Own order capacity s (p_room objs b old seen n)
        → s.prod_head < old + 2 ^ 32
        → swapped s.prod_head old n ≡ true
        → Moves order capacity s
            (p_room objs b old seen n)
            (record s { prod_head = s.prod_head + n })
            (p_copy objs old n 0)
    p_swap-Moves objs b old seen n o in_time e = record {
      calm = record {
        taken = v.taken;
        ready = v.ready;
        begun = omega (arith, v.begun);
        bounded = room;
        stored = v.stored;
      };
      own = record {
        from = omega (arith, same, v.begun);
        to = omega (arith, same);
        some = o.3;
        upto = omega arith;
        within = o.5;
        done = λ k h. absurd (omega (arith, h));
        kept = λ k h. absurd (omega (arith, h));
      };
      grows = record {
        prod_head = omega arith;
        prod_tail = omega arith;
        cons_head = omega arith;
        cons_tail = omega arith;
      };
      spares = λ q a c d. record {
        p_from = λ x y z. y;
        c_from = λ x y z. y;
        p_sent = λ j x y z. refl;
        p_slots = λ j x y z t. refl;
        c_sent = λ j x. refl;
      };
      p_kept = λ q a c. elim (p_below s q a) [
        | inl h ↦ inr (inl h)
        | inr h ↦ inr (inr (inr (omega (arith, h, same))))
      ];
      c_kept = λ q a c. inl refl;
      p_cover = λ j a c. elim (dec_lt j s.prod_head) [
        | yes h ↦ inr (a, h, inr (omega arith))
        | no h ↦ inl (omega (arith, h, same), omega (arith, c, same))
      ];
      c_cover = λ j a c. inr (a, c, inr (omega arith));
    }
      where
        same : s.prod_head ≡ old
        same = omega (arith, swapped_lem s.prod_head old n e, in_time, o.0)

        free : free_entries capacity seen old ≡ capacity + seen - old
        free = omega (arith, same, capacity_word, o.1, o.2, v.taken, v.ready, v.begun)

        room : s.prod_head + n ≤ s.cons_tail + capacity
        room = omega (arith, same, free, o.1, o.2, o.4)

    pub c_swap-Moves :
        (max : ℕ) (b : Behavior) (old seen n : ℕ)
        → Own order capacity s (c_room max b old seen n)
        → s.cons_head < old + 2 ^ 32
        → swapped s.cons_head old n ≡ true
        → Moves order capacity s
            (c_room max b old seen n)
            (record s { cons_head = s.cons_head + n })
            (c_copy old n [])
    c_swap-Moves max b old seen n o in_time e = record {
      calm = record {
        taken = omega (arith, v.taken);
        ready = room;
        begun = v.begun;
        bounded = v.bounded;
        stored = v.stored;
      };
      own = record {
        from = omega (arith, same, v.taken);
        to = omega (arith, same);
        some = o.3;
        upto = omega arith;
        right = λ k h. absurd (omega (arith, h));
      };
      grows = record {
        prod_head = omega arith;
        prod_tail = omega arith;
        cons_head = omega arith;
        cons_tail = omega arith;
      };
      spares = λ q a c d. record {
        p_from = λ x y z. y;
        c_from = λ x y z. y;
        p_sent = λ j x y z. refl;
        p_slots = λ j x y z t. refl;
        c_sent = λ j x. refl;
      };
      p_kept = λ q a c. inl refl;
      c_kept = λ q a c. elim (c_below s q a) [
        | inl h ↦ inr (inl h)
        | inr h ↦ inr (inr (inr (omega (arith, h, same))))
      ];
      p_cover = λ j a c. inr (a, c, inr (omega arith));
      c_cover = λ j a c. elim (dec_lt j s.cons_head) [
        | yes h ↦ inr (a, h, inr (omega arith))
        | no h ↦ inl (omega (arith, h, same), omega (arith, c, same))
      ];
    }
      where
        same : s.cons_head ≡ old
        same = omega (arith, swapped_lem s.cons_head old n e, in_time, o.0)

        there : entries seen old ≡ seen - old
        there = omega (arith, same, capacity_word, o.1, o.2, v.taken, v.begun, v.bounded)

        room : s.cons_head + n ≤ s.prod_tail
        room = omega (arith, same, there, o.1, o.2, o.4)
