-- ===== src/Ring/Concurrent/Order.antt =====
-- Whatever the order of the accesses, the ring is a queue.
use rte_demo.Prelude.{
  ℕ, ◌+◌, ◌^◌, ◌<◌, ◌≡◌, ◌≢◌, refl, sym, ap, ◌∙◌, inl, inr, arith, [], ◌∷◌, ◌++◌, length, ltb, ◌==◌,
  ==_iff, Bool-cases, true, false,
}
use rte_demo.Word.Smear.{two_pow_mono}
use rte_demo.Ring.Transfer.{granted}
use rte_demo.Malloc.Types.{update}
use rte_demo.Ring.Concurrent.{
  Shared, Phase, idle, p_start, p_head, p_room, p_copy, c_start, c_head, c_room, c_copy, word, slot,
  free_entries, entries, swapped, act, InTime, System,
}
use rte_demo.Ring.Concurrent.Ranges.{Disjoint-sym, InRange, OffRange, granted-le}
use rte_demo.Ring.Concurrent.Owners.{p_range, c_range, Own, IsCalm, IsSound, Own-Spares}
use rte_demo.Ring.Concurrent.Acts.{Moves, quiet-Moves, stay-Moves}
use rte_demo.Ring.Concurrent.Swaps.{p_swap-Moves, c_swap-Moves}
use rte_demo.Ring.Concurrent.Copies.{write-Moves, publish-Moves, read-Own, release-Moves}

module _ (order capacity : ℕ) (small : order < 32) (spare : capacity < 2 ^ order) where
  capacity_word : capacity < 2 ^ 32
  capacity_word = omega (arith, spare, two_pow_mono order 31 (omega (arith, small)))

  module _ (s : Shared) (v : IsCalm order capacity s) where
    pub act-Moves :
        (p : Phase)
        → Own order capacity s p
        → InTime s p
        → Moves order capacity s p (act order capacity s p).0 (act order capacity s p).1
    unfolding act
    act-Moves idle o h = quiet-Moves order capacity s idle idle (refl, refl) (refl, refl) v o
    act-Moves (p_start objs b) o h =
        quiet-Moves order capacity s (p_start objs b) (p_head objs b s.prod_head) (refl, refl)
          (refl, refl) v (omega arith, v.bounded)
    act-Moves (p_head objs b old) o h =
        let free = free_entries capacity s.cons_tail old in
        let n = granted b (length objs) free in
        elim (Bool-cases (n == 0)) [
          | inl e ↦
              rw e (
                quiet-Moves order capacity s (p_head objs b old) idle (refl, refl) (refl, refl) v
                  tt)
          | inr e ↦ rw e (
              quiet-Moves order capacity s (p_head objs b old) (p_room objs b old s.cons_tail n)
                (refl, refl) (refl, refl) v
                (
                  o.0,
                  o.1,
                  omega arith,
                  ground (arith, e),
                  (granted-le b (length objs) free).0,
                  (granted-le b (length objs) free).1,
                ))
        ]
    act-Moves (p_room objs b old seen n) o h = elim (Bool-cases (swapped s.prod_head old n)) [
      | inl e ↦ rw e (p_swap-Moves order capacity capacity_word s v objs b old seen n o h e)
      | inr e ↦ rw e (
          quiet-Moves order capacity s (p_room objs b old seen n) (p_start objs b) (refl, refl)
            (refl, refl) v tt)
    ]
    act-Moves (p_copy objs old n i) o h = elim (Bool-cases (ltb i n)) [
      | inl e ↦ rw e (write-Moves order capacity small spare s v objs old n i o (ground (arith, e)))
      | inr e ↦ elim (Bool-cases (word s.prod_tail == word old)) [
        | inl f ↦
            rw (e, f)
              (publish-Moves order capacity small spare s v objs old n i o
                (ground (arith, e, o.upto)) ((==_iff (word s.prod_tail) (word old)).0 f))
        | inr f ↦
            rw (e, f)
              (stay-Moves order capacity s (p_copy objs old n i) (p_copy objs old n i) refl refl v
                o)
      ]
    ]
    act-Moves (c_start max b) o h =
        quiet-Moves order capacity s (c_start max b) (c_head max b s.cons_head) (refl, refl)
          (refl, refl) v (omega arith)
    act-Moves (c_head max b old) o h =
        let there = entries s.prod_tail old in
        let n = granted b max there in
        elim (Bool-cases (n == 0)) [
          | inl e ↦
              rw e (
                quiet-Moves order capacity s (c_head max b old) idle (refl, refl) (refl, refl) v tt)
          | inr e ↦ rw e (
              quiet-Moves order capacity s (c_head max b old) (c_room max b old s.prod_tail n)
                (refl, refl) (refl, refl) v
                (
                  o,
                  omega (arith, o, v.ready),
                  omega arith,
                  ground (arith, e),
                  (granted-le b max there).0,
                ))
        ]
    act-Moves (c_room max b old seen n) o h = elim (Bool-cases (swapped s.cons_head old n)) [
      | inl e ↦ rw e (c_swap-Moves order capacity capacity_word s v max b old seen n o h e)
      | inr e ↦ rw e (
          quiet-Moves order capacity s (c_room max b old seen n) (c_start max b) (refl, refl)
            (refl, refl) v tt)
    ]
    act-Moves (c_copy old n got) o h = elim (Bool-cases (ltb (length got) n)) [
      | inl e ↦ rw e (
          stay-Moves order capacity s (c_copy old n got)
            (c_copy old n (got ++ (s.slots (slot order (old + length got)) ∷ []))) refl refl v
            (read-Own order capacity small spare s v old n got o (ground (arith, e))))
      | inr e ↦ elim (Bool-cases (word s.cons_tail == word old)) [
        | inl f ↦
            rw (e, f)
              (release-Moves order capacity small spare s v old n got o (ground (arith, e, o.upto))
                ((==_iff (word s.cons_tail) (word old)).0 f))
        | inr f ↦
            rw (e, f)
              (stay-Moves order capacity s (c_copy old n got) (c_copy old n got) refl refl v o)
      ]
    ]

  -- One thread moves, the others stand still.
  pub moved-IsSound :
      (w : System) (t : ℕ) (s' : Shared) (p' : Phase)
      → IsSound order capacity w
      → Moves order capacity w.shared (w.threads t) s' p'
      → IsSound order capacity (record { shared = s'; threads = update w.threads t p' })
  moved-IsSound w t s' p' v m = record {
    calm = m.calm;
    own = λ u. elim (Bool-cases (u == t)) [
      | inl e ↦ rw e m.own
      | inr e ↦ rw e (
          Own-Spares order capacity w.shared s' (w.threads u) m.grows
            (m.spares (w.threads u) (v.own u) (v.p_apart t u (other u e))
              (v.c_apart t u (other u e)))
            (v.own u))
    ];
    p_apart = λ u x ne. elim (Bool-cases (u == t)) [
      | inl e ↦ elim (Bool-cases (x == t)) [
        | inl f ↦ absurd (ne ((==_iff u t).0 e ∙ sym ((==_iff x t).0 f)))
        | inr f ↦ rw (e, f) (m.p_kept (w.threads x) (v.own x) (v.p_apart t x (other x f)))
      ]
      | inr e ↦ elim (Bool-cases (x == t)) [
        | inl f ↦
            rw (e, f)
              (Disjoint-sym (p_range p').0 (p_range p').1 (p_range (w.threads u)).0
                (p_range (w.threads u)).1
                (m.p_kept (w.threads u) (v.own u) (v.p_apart t u (other u e))))
        | inr f ↦ rw (e, f) (v.p_apart u x ne)
      ]
    ];
    c_apart = λ u x ne. elim (Bool-cases (u == t)) [
      | inl e ↦ elim (Bool-cases (x == t)) [
        | inl f ↦ absurd (ne ((==_iff u t).0 e ∙ sym ((==_iff x t).0 f)))
        | inr f ↦ rw (e, f) (m.c_kept (w.threads x) (v.own x) (v.c_apart t x (other x f)))
      ]
      | inr e ↦ elim (Bool-cases (x == t)) [
        | inl f ↦
            rw (e, f)
              (Disjoint-sym (c_range p').0 (c_range p').1 (c_range (w.threads u)).0
                (c_range (w.threads u)).1
                (m.c_kept (w.threads u) (v.own u) (v.c_apart t u (other u e))))
        | inr f ↦ rw (e, f) (v.c_apart u x ne)
      ]
    ];
    p_owned = λ j a b. elim (m.p_cover j a b) [
      | inl h ↦ (t, rw self h)
      | inr (c, d, off) ↦ still_p j off (v.p_owned j c d)
    ];
    c_owned = λ j a b. elim (m.c_cover j a b) [
      | inl h ↦ (t, rw self h)
      | inr (c, d, off) ↦ still_c j off (v.c_owned j c d)
    ];
  }
    where
      other : (u : ℕ) → (u == t) ≡ false → t ≢ u
      other u e p = absurd (ground (arith, e, p))

      self : (t == t) ≡ true
      self = (==_iff t t).1 refl

      still_p :
          (j : ℕ)
          → OffRange j (p_range (w.threads t))
          → (u : ℕ) × InRange j (p_range (w.threads u))
          → (u : ℕ) × InRange j (p_range (update w.threads t p' u))
      still_p j off (u, h) = elim (Bool-cases (u == t)) [
        | inl e ↦ absurd (
            omega (
              arith,
              off,
              h,
              ap (λ (x : ℕ). (p_range (w.threads x)).0) ((==_iff u t).0 e),
              ap (λ (x : ℕ). (p_range (w.threads x)).1) ((==_iff u t).0 e),
            ))
        | inr e ↦ (u, rw e h)
      ]

      still_c :
          (j : ℕ)
          → OffRange j (c_range (w.threads t))
          → (u : ℕ) × InRange j (c_range (w.threads u))
          → (u : ℕ) × InRange j (c_range (update w.threads t p' u))
      still_c j off (u, h) = elim (Bool-cases (u == t)) [
        | inl e ↦ absurd (
            omega (
              arith,
              off,
              h,
              ap (λ (x : ℕ). (c_range (w.threads x)).0) ((==_iff u t).0 e),
              ap (λ (x : ℕ). (c_range (w.threads x)).1) ((==_iff u t).0 e),
            ))
        | inr e ↦ (u, rw e h)
      ]
