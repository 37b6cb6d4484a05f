-- ===== src/Hugepage/Shared.antt =====
-- What a socket gives: `share_socket` takes what is wanted from the pages that are there.
use native.Mathlib.Nat.{suc-mul, mod-eq_of_lt}
use rte_demo.Prelude.{
  ℕ, suc, ◌+◌, ◌-◌, ◌*◌, ◌^◌, ◌≤◌, ◌<◌, ◌≡◌, refl, sym, ap, ◌∙◌, arith, List, [], ◌∷◌, length-set,
  min, Bool-cases, inl, inr, true, false, ltb, ◌==◌, get_or-set_self, get_or-set_ne, ==_iff,
}
use rte_demo.Word.{add32, sub64}
use rte_demo.Hugepage.Types.{HugepageInfo}
use rte_demo.Hugepage.Share.{mul64, remaining_mem, Share, use_pages, with_entry, share_socket}
use rte_demo.Hugepage.Wanted.{
  pages_on, bytes_on, count_on, IsUnused, SameElsewhere, Gives, SameElsewhere-refl, unused-Within,
  unused-bytes, later_lem, nothing_lem, remaining-bytes, whole_pages, taken-le, short, pages-bytes,
}

module _ (socket : ℕ) (info u : HugepageInfo) (infos used : List HugepageInfo)
    (memory total pages : ℕ) (h : IsUnused socket (info ∷ infos) (u ∷ used)) (room : memory ≤ total)
    (word : total < 2 ^ 64) (bytes_word : bytes_on (info ∷ infos) socket < 2 ^ 64)
    (pages_word : pages + count_on (info ∷ infos) socket < 2 ^ 32) where
  abbrev sz : ℕ
  sz = info.hugepage_sz

  abbrev available : ℕ
  available = pages_on info socket

  abbrev m : ℕ
  m = whole_pages memory sz available

  m-le-available : m ≤ available
  m-le-available = omega arith

  cur_mem_lem : mul64 m u.hugepage_sz ≡ m * sz
  cur_mem_lem =
      ap (λ (t : ℕ). mul64 m t) h.0.1
      ∙ mod-eq_of_lt (omega (arith, pages-bytes m available sz m-le-available, bytes_word))

  left_lem : sub64 memory (mul64 m u.hugepage_sz) ≡ memory - m * sz
  left_lem = omega (arith, cur_mem_lem, taken-le memory sz available)

  total_lem : sub64 total (mul64 m u.hugepage_sz) ≡ total - m * sz
  total_lem = omega (arith, cur_mem_lem, taken-le memory sz available)

  now_used : (k : ℕ) → pages_on (use_pages u info socket k) socket ≡ k
  now_used k = get_or-set_self u.num_pages socket k 0 h.0.3

  elsewhere_used :
      (k : ℕ) (used' : List HugepageInfo)
      → SameElsewhere socket used used'
      → SameElsewhere socket (u ∷ used) (use_pages u info socket k ∷ used')
  elsewhere_used k used' rest = (
    (
      refl,
      length-set u.num_pages socket k,
      λ j ne. get_or-set_ne u.num_pages socket j k 0 (λ e. ne (sym e)),
    ),
    rest,
  )

  now_bytes : (k : ℕ) → pages_on (use_pages u info socket k) socket * u.hugepage_sz ≡ k * sz
  now_bytes k = ap (λ (t : ℕ). t * u.hugepage_sz) (now_used k) ∙ ap (λ (t : ℕ). k * t) h.0.1

  -- Nothing of the later sizes is taken.
  stop_lem :
      (k memory' total' pages' : ℕ)
      → k ≤ available
      → memory ≤ k * sz
      → total' + memory ≡ total
      → pages' ≡ pages + k
      → memory' ≡ 0
      → Gives socket (info ∷ infos) (u ∷ used) memory total pages (record {
        hp_used = use_pages u info socket k ∷ used;
        memory = memory';
        total_mem = total';
        total_num_pages = pages';
      })
  stop_lem k memory' total' pages' h1 h2 h3 h4 h5 = record {
    less = omega arith;
    covered = omega (arith, now_bytes k);
    total = omega arith;
    enough = λ _. h5;
    needed = λ _. omega (arith, pages-bytes k available sz h1);
    within = (omega (arith, now_used k), unused-Within socket infos used h.1);
    counted = omega (arith, now_used k, (unused-bytes socket infos used h.1).1);
    elsewhere = elsewhere_used k used (SameElsewhere-refl socket used);
  }

  -- The later sizes give the rest.
  go_on_lem :
      (s : Share)
      → (memory ≤ bytes_on (info ∷ infos) socket → memory - m * sz ≤ bytes_on infos socket)
      → Gives socket infos used (memory - m * sz) (total - m * sz) (pages + m) s
      → Gives socket
          (info ∷ infos)
          (u ∷ used)
          memory
          total
          pages
          (with_entry (use_pages u info socket m) s)
  go_on_lem s more g = record {
    less = omega (arith, g.less);
    covered = omega (arith, now_bytes m, g.covered, taken-le memory sz available);
    total = omega (arith, g.total, taken-le memory sz available);
    enough = λ p. g.enough (more p);
    needed = λ p. omega (arith, g.needed p, pages-bytes m available sz m-le-available);
    within = (omega (arith, now_used m), g.within);
    counted = omega (arith, now_used m, g.counted);
    elsewhere = elsewhere_used m s.hp_used g.elsewhere;
  }

  abbrev memory' : ℕ
  memory' = sub64 memory (mul64 m u.hugepage_sz)

  abbrev total' : ℕ
  total' = sub64 total (mul64 m u.hugepage_sz)

  abbrev pages' : ℕ
  pages' = add32 pages m

  pages_lem : pages' ≡ pages + m
  pages_lem = omega (arith, m-le-available, pages_word)

  done_lem :
      (memory' == 0) ≡ true
      → Gives socket (info ∷ infos) (u ∷ used) memory total pages (record {
        hp_used = use_pages u info socket m ∷ used;
        memory = memory';
        total_mem = total';
        total_num_pages = pages';
      })
  done_lem e =
      stop_lem m memory' total' pages' m-le-available (omega (arith, left_lem, zero_left))
        (omega (arith, left_lem, total_lem, zero_left, taken-le memory sz available)) pages_lem
        zero_left
    where
      zero_left : memory' ≡ 0
      zero_left = (==_iff memory' 0).0 e

  abbrev one_more : ℕ
  one_more = min memory' sz

  one_more_lem :
      (m == available) ≡ false
      → Gives socket (info ∷ infos) (u ∷ used) memory total pages (record {
        hp_used = use_pages u info socket (add32 m 1) ∷ used;
        memory = sub64 memory' one_more;
        total_mem = sub64 total' one_more;
        total_num_pages = add32 pages' 1;
      })
  one_more_lem e =
      stop_lem (add32 m 1) (sub64 memory' one_more) (sub64 total' one_more) (add32 pages' 1)
        (omega (arith, next_lem, fewer)) (rw next_lem (omega (arith, bound, suc-mul m sz)))
        (omega (arith, bound, left_lem, total_lem, taken-le memory sz available))
        (omega (arith, next_lem, pages_lem, fewer, pages_word))
        (omega (arith, bound, left_lem, taken-le memory sz available))
    where
      fewer : m < available
      fewer = ground (arith, e, m-le-available)

      next_lem : add32 m 1 ≡ suc m
      next_lem = omega (arith, fewer, pages_word)

      bound : memory < m * sz + sz
      bound = short memory sz available h.0.0 fewer

  wrapped :
      Gives socket infos used
        (memory - m * sz)
        (total - m * sz)
        (pages + m)
        (share_socket socket infos used (memory - m * sz) (total - m * sz) (pages + m))
      → Gives socket infos used
          (memory - m * sz)
          (total - m * sz)
          (pages + m)
          (share_socket socket infos used memory' total' pages')
  wrapped g = rw (left_lem, total_lem, pages_lem) g

  step_lem :
      Gives socket infos used
        (memory - m * sz)
        (total - m * sz)
        (pages + m)
        (share_socket socket infos used memory' total' pages')
      → Gives socket
          (info ∷ infos)
          (u ∷ used)
          memory
          total
          pages
          (share_socket socket (info ∷ infos) (u ∷ used) memory total pages)
  unfolding share_socket
  step_lem g = elim (Bool-cases (memory == 0)) [
    | inl z ↦ rw z (
        nothing_lem socket (info ∷ infos) (u ∷ used) memory total pages h
          (λ _. (==_iff memory 0).0 z))
    | inr nz ↦ elim (Bool-cases (memory' == 0)) [
      | inl e ↦ rw (nz, e) (done_lem e)
      | inr ne ↦ elim (Bool-cases (m == available)) [
        | inl all ↦
            rw (nz, ne, all)
              (go_on_lem (share_socket socket infos used memory' total' pages')
                (λ p. omega (
                  arith,
                  p,
                  (==_iff m available).0 all,
                  ap (λ (t : ℕ). t * sz) ((==_iff m available).0 all),
                ))
                g)
        | inr other ↦ elim (Bool-cases (ltb (remaining_mem socket infos) memory')) [
          | inl t ↦ rw (nz, ne, other, t) (one_more_lem other)
          | inr t ↦
              rw (nz, ne, other, t)
                (go_on_lem (share_socket socket infos used memory' total' pages')
                  (λ p. omega (
                    arith,
                    left_lem,
                    later_lem (remaining_mem socket infos) memory' t,
                    remaining-bytes socket infos (omega (arith, bytes_word)),
                  ))
                  g)
        ]
      ]
    ]
  ]

-- The loop over the sizes. Where nothing wraps, a socket on which nothing is used yet gives no more
-- pages of a size than it has; what it gives covers what is taken off the memory that is wanted, of
-- the socket and in all; all of it is given exactly when the pages of the socket suffice; and the
-- other sockets are as before.
pub share_socket_lem :
    (socket : ℕ) (infos used : List HugepageInfo) (memory total pages : ℕ)
    → IsUnused socket infos used
    → memory ≤ total
    → total < 2 ^ 64
    → bytes_on infos socket < 2 ^ 64
    → pages + count_on infos socket < 2 ^ 32
    → Gives socket infos used memory total pages (share_socket socket infos used memory total pages)
unfolding share_socket
share_socket_lem socket [] used memory total pages h room word b p =
    nothing_lem socket [] used memory total pages h (λ q. omega (arith, q))
share_socket_lem socket (info ∷ infos) [] memory total pages h room word b p = absurd h
share_socket_lem socket (info ∷ infos) (u ∷ used) memory total pages h room word b p =
    step_lem socket info u infos used memory total pages h room word b p (
      wrapped socket info u infos used memory total pages h room word b p (
        share_socket_lem socket infos used
          (memory
            - m socket info u infos used memory total pages h room word b p * info.hugepage_sz)
          (total - m socket info u infos used memory total pages h room word b p * info.hugepage_sz)
          (pages + m socket info u infos used memory total pages h room word b p) h.1
          (omega (arith, room)) (omega (arith, word)) (omega (arith, b)) (omega (arith, p))))
