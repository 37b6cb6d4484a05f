-- ===== src/Ring/Concurrent/Copies.antt =====
-- The copies and the moves of the tails, and all accesses together.
use rte_demo.Prelude.{
  ℕ, ◌+◌, ◌-◌, ◌^◌, ◌≤◌, ◌<◌, ◌≡◌, ◌≢◌, refl, sym, ap, ◌∙◌, inl, inr, arith, List, [], ◌∷◌, ◌++◌,
  length, get_or, ◌==◌, ==_iff, Bool-cases, false, length-append, dec_lt,
}
use rte_demo.Word.Smear.{two_pow_mono}
use rte_demo.Malloc.Types.{update}
use rte_demo.Ring.Concurrent.{Shared, idle, p_copy, c_copy, word, slot}
use rte_demo.Ring.Concurrent.Ranges.{InRange-cases, slot-ne, get_or-append_left, get_or-append_last}
use rte_demo.Ring.Concurrent.Owners.{Writes, Reads, IsCalm}
use rte_demo.Ring.Concurrent.Acts.{Moves}

update_self : (f : ℕ → ℕ) (a x : ℕ) → update f a x a ≡ x
update_self f a x = rw ((==_iff a a).1 refl) refl

update_other : (f : ℕ → ℕ) (a x b : ℕ) → b ≢ a → update f a x b ≡ f b
update_other f a x b ne = rw apart refl
  where
    apart : (b == a) ≡ false
    apart = ground (arith, ne)

slot_apart :
    (order x y : ℕ)
    → order < 32
    → x ≢ y
    → x < y + 2 ^ order
    → y < x + 2 ^ order
    → slot order x ≢ slot order y
slot_apart order x y small ne h k e = elim (dec_lt x y) [
  | yes p ↦ slot-ne order x y small p k e
  | no p ↦ slot-ne order y x small (omega (arith, ne, p)) h (sym e)
]

module _ (order capacity : ℕ) (small : order < 32) (spare : capacity < 2 ^ order) (s : Shared)
    (v : IsCalm order capacity s) where
  module _ (objs : List ℕ) (old n i : ℕ) (o : Writes order s objs old n i) where
    abbrev obj : ℕ
    obj = get_or objs i 0

    abbrev written : Shared
    written = record s {
      slots = update s.slots (slot order (old + i)) obj;
      sent = update s.sent (old + i) obj;
    }

    sent_other : (j : ℕ) → j ≢ old + i → written.sent j ≡ s.sent j
    sent_other j ne = update_other s.sent (old + i) obj j ne

    slots_other :
        (j : ℕ)
        → i < n
        → j ≢ old + i
        → s.cons_tail ≤ j
        → j < s.prod_head
        → written.slots (slot order j) ≡ s.slots (slot order j)
    slots_other j h ne a b = update_other s.slots (slot order (old + i)) obj (slot order j) (
        slot_apart order j (old + i) small ne
          (omega (arith, v.bounded, v.taken, v.ready, o.from, b, spare))
          (omega (arith, v.bounded, o.to, h, a, spare)))

    pub write-Moves :
        i < n → Moves order capacity s (p_copy objs old n i) written (p_copy objs old n (i + 1))
    write-Moves h = record {
      calm = record {
        taken = v.taken;
        ready = v.ready;
        begun = v.begun;
        bounded = v.bounded;
        stored = λ j a b.
            slots_other j h (λ e. absurd (omega (arith, e, b, o.from))) a
              (omega (arith, b, v.begun))
            ∙ v.stored j a b
            ∙ sym (sent_other j (λ e. absurd (omega (arith, e, b, o.from))));
      };
      own = record {
        from = o.from;
        to = o.to;
        some = o.some;
        upto = omega (arith, h);
        within = o.within;
        done = λ k a. elim (Bool-cases (k == i)) [
          | inl e ↦ rw ((==_iff k i).0 e) (update_self s.sent (old + i) obj)
          | inr e ↦
              sent_other (old + k) (λ p. absurd (ground (arith, e, p)))
              ∙ o.done k (ground (arith, e, a))
        ];
        kept = λ k a. elim (Bool-cases (k == i)) [
          | inl e ↦ rw ((==_iff k i).0 e) (
              update_self s.slots (slot order (old + i)) obj
              ∙ sym (update_self s.sent (old + i) obj))
          | inr e ↦
              slots_other (old + k) h (λ p. absurd (ground (arith, e, p)))
                (omega (arith, v.taken, v.ready, o.from)) (omega (arith, a, h, o.to))
              ∙ o.kept k (ground (arith, e, a))
              ∙ sym (sent_other (old + k) (λ p. absurd (ground (arith, e, p))))
        ];
      };
      grows = record {
        prod_head = omega arith;
        prod_tail = omega arith;
        cons_head = omega arith;
        cons_tail = omega arith;
      };
      spares = λ q a c d. record {
        p_from = λ x y z. y;
        c_from = λ x y z. y;
        p_sent = λ j x y z. sent_other j (λ e. absurd (omega (arith, e, c, h, y, z)));
        p_slots = λ j x y z t.
            slots_other j h (λ e. absurd (omega (arith, e, c, h, z, t)))
              (omega (arith, v.taken, v.ready, x)) y;
        c_sent = λ j x. sent_other j (λ e. absurd (omega (arith, e, x, v.ready, o.from)));
      };
      p_kept = λ q a c. c;
      c_kept = λ q a c. inl refl;
      p_cover = λ j a c. elim (InRange-cases j old n) [ inl p ↦ inl p | inr p ↦ inr (a, c, p) ];
      c_cover = λ j a c. inr (a, c, inr (omega arith));
    }

    pub publish-Moves :
        i ≡ n
        → word s.prod_tail ≡ word old
        → Moves order capacity s (p_copy objs old n i) (record s { prod_tail = old + n }) idle
    publish-Moves all e = record {
      calm = record {
        taken = v.taken;
        ready = omega (arith, v.ready, same);
        begun = o.to;
        bounded = v.bounded;
        stored = λ j a b. elim (dec_lt j s.prod_tail) [
          | yes h ↦ v.stored j a h
          | no h ↦
              ap (λ (t : ℕ). s.slots (slot order t)) (there j (omega (arith, h, same)))
              ∙ o.kept (j - old) (omega (arith, h, same, b, all))
              ∙ ap s.sent (sym (there j (omega (arith, h, same))))
        ];
      };
      own = tt;
      grows = record {
        prod_head = omega arith;
        prod_tail = omega (arith, same);
        cons_head = omega arith;
        cons_tail = omega arith;
      };
      spares = λ q a c d. record {
        p_from = λ x y z. omega (arith, c, x, y, same, o.some);
        c_from = λ x y z. y;
        p_sent = λ j x y z. refl;
        p_slots = λ j x y z t. refl;
        c_sent = λ j x. refl;
      };
      p_kept = λ q a c. inl refl;
      c_kept = λ q a c. inl refl;
      p_cover = λ j a c. inr (omega (arith, a, same), c, inr a);
      c_cover = λ j a c. inr (a, c, inr (omega arith));
    }
      where
        same : s.prod_tail ≡ old
        same = omega (
          arith,
          e,
          o.from,
          o.to,
          v.bounded,
          v.taken,
          v.ready,
          spare,
          two_pow_mono order 31 (omega (arith, small)),
        )

        there : (j : ℕ) → old ≤ j → j ≡ old + (j - old)
        there j h = omega (arith, h)

  module _ (old n : ℕ) (got : List ℕ) (o : Reads s old n got) where
    abbrev next_obj : ℕ
    next_obj = s.slots (slot order (old + length got))

    next_sent : length got < n → next_obj ≡ s.sent (old + length got)
    next_sent h =
        v.stored (old + length got) (omega (arith, o.from)) (omega (arith, h, o.to, v.ready))

    pub read-Own : length got < n → Reads s old n (got ++ (next_obj ∷ []))
    read-Own h = record {
      from = o.from;
      to = o.to;
      some = o.some;
      upto = omega (arith, length-append got (next_obj ∷ []), h);
      right = λ k a. elim (Bool-cases (k == length got)) [
        | inl e ↦ rw ((==_iff k (length got)).0 e) (get_or-append_last got next_obj ∙ next_sent h)
        | inr e ↦ get_or-append_left got next_obj k (older k a e) ∙ o.right k (older k a e)
      ];
    }
      where
        older :
            (k : ℕ)
            → k < length (got ++ (next_obj ∷ []))
            → (k == length got) ≡ false
            → k < length got
        older k a e = ground (arith, e, a, length-append got (next_obj ∷ []))

    pub release-Moves :
        length got ≡ n
        → word s.cons_tail ≡ word old
        → Moves order capacity s (c_copy old n got) (record s { cons_tail = old + n }) idle
    release-Moves all e = record {
      calm = record {
        taken = o.to;
        ready = v.ready;
        begun = v.begun;
        bounded = omega (arith, v.bounded, same);
        stored = λ j a b. v.stored j (omega (arith, a, same)) b;
      };
      own = tt;
      grows = record {
        prod_head = omega arith;
        prod_tail = omega arith;
        cons_head = omega arith;
        cons_tail = omega (arith, same);
      };
      spares = λ q a c d. record {
        p_from = λ x y z. y;
        c_from = λ x y z. omega (arith, d, x, y, same, o.some);
        p_sent = λ j x y z. refl;
        p_slots = λ j x y z t. refl;
        c_sent = λ j x. refl;
      };
      p_kept = λ q a c. inl refl;
      c_kept = λ q a c. inl refl;
      p_cover = λ j a c. inr (a, c, inr (omega arith));
      c_cover = λ j a c. inr (omega (arith, a, same), c, inr a);
    }
      where
        same : s.cons_tail ≡ old
        same = omega (
          arith,
          e,
          o.from,
          o.to,
          v.bounded,
          v.begun,
          v.ready,
          spare,
          two_pow_mono order 31 (omega (arith, small)),
        )
