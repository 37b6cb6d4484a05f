-- ===== src/Hugepage/Served.antt =====
-- What all sockets give: `share_sockets` succeeds exactly when each has enough.
use rte_demo.Prelude.{
  ℕ, zero, suc, ◌+◌, ◌^◌, ◌≤◌, ◌<◌, ◌≡◌, ◌≢◌, refl, sym, ap, ◌∙◌, ◌⊎◌, inl, inr, arith, List, [],
  ◌∷◌, length, get_or, Option, none, some, Bool-cases, false, ◌==◌, ==_iff, dec_lt,
}
use rte_demo.Malloc.Sockets.{max_numa_nodes}
use rte_demo.Hugepage.Types.{HugepageInfo, InternalConfig}
use rte_demo.Hugepage.Share.{
  Share, share_socket, share_sockets, Cores, default_memory, calc_num_pages_per_socket,
}
use rte_demo.Hugepage.Wanted.{
  pages_on, bytes_on, count_on, IsUnused, Within, SameElsewhere, Gives, unused-Within,
}
use rte_demo.Hugepage.Shared.{share_socket_lem}

-- Two tables are the same on a socket.
abbrev pub SameOn : (socket : ℕ) → List HugepageInfo → List HugepageInfo → Type 0
SameOn socket [] used = used ≡ []
SameOn socket (u ∷ used) [] = ⊥
SameOn socket (u ∷ used) (u' ∷ used') =
    ((u'.hugepage_sz ≡ u.hugepage_sz)
      × (length u'.num_pages ≡ length u.num_pages)
      × (pages_on u' socket ≡ pages_on u socket))
    × SameOn socket used used'

elsewhere-SameOn :
    (socket j : ℕ) (a b : List HugepageInfo) → j ≢ socket → SameElsewhere socket a b → SameOn j a b
elsewhere-SameOn socket j [] b ne h = h
elsewhere-SameOn socket j (x ∷ a) [] ne h = h
elsewhere-SameOn socket j (x ∷ a) (y ∷ b) ne (h, r) =
    ((h.0, h.1, h.2 j ne), elsewhere-SameOn socket j a b ne r)

SameOn-refl : (j : ℕ) (a : List HugepageInfo) → SameOn j a a
SameOn-refl j [] = refl
SameOn-refl j (x ∷ a) = ((refl, refl, refl), SameOn-refl j a)

SameOn-trans : (j : ℕ) (a b c : List HugepageInfo) → SameOn j a b → SameOn j b c → SameOn j a c
SameOn-trans j [] [] c h k = k
SameOn-trans j [] (y ∷ b) c h k = absurd (ground (arith, h))
SameOn-trans j (x ∷ a) [] c h k = absurd h
SameOn-trans j (x ∷ a) (y ∷ b) [] h k = k
SameOn-trans j (x ∷ a) (y ∷ b) (z ∷ c) (h, r) (k, t) =
    ((k.0 ∙ h.0, k.1 ∙ h.1, k.2 ∙ h.2), SameOn-trans j a b c r t)

SameOn-bytes : (j : ℕ) (a b : List HugepageInfo) → SameOn j a b → bytes_on b j ≡ bytes_on a j
SameOn-bytes j [] b h = ap (λ (t : List HugepageInfo). bytes_on t j) h
SameOn-bytes j (x ∷ a) [] h = absurd h
SameOn-bytes j (x ∷ a) (y ∷ b) (h, r) = rw (h.0, h.2, SameOn-bytes j a b r) refl

SameOn-Within :
    (j : ℕ) (infos a b : List HugepageInfo) → SameOn j a b → Within j infos a → Within j infos b
SameOn-Within j [] a b h w = tt
SameOn-Within j (i ∷ infos) [] b h w = rw h tt
SameOn-Within j (i ∷ infos) (x ∷ a) [] h w = absurd h
SameOn-Within j (i ∷ infos) (x ∷ a) (y ∷ b) (h, r) (w, t) =
    (omega (arith, h.2, w), SameOn-Within j infos a b r t)

SameOn-IsUnused :
    (j : ℕ) (infos a b : List HugepageInfo) → SameOn j a b → IsUnused j infos a → IsUnused j infos b
SameOn-IsUnused j [] [] b h w = rw h tt
SameOn-IsUnused j [] (x ∷ a) b h w = absurd w
SameOn-IsUnused j (i ∷ infos) [] b h w = absurd w
SameOn-IsUnused j (i ∷ infos) (x ∷ a) [] h w = absurd h
SameOn-IsUnused j (i ∷ infos) (x ∷ a) (y ∷ b) (h, r) (w, t) =
    ((w.0, h.0 ∙ w.1, h.2 ∙ w.2, omega (arith, h.1, w.3)), SameOn-IsUnused j infos a b r t)

-- What `n` sockets from `socket` on want, and the pages that they have.
abbrev pub wanted : List ℕ → (n socket : ℕ) → ℕ
wanted memory zero socket = 0
wanted memory (suc n) socket = get_or memory socket 0 + wanted memory n (socket + 1)

abbrev pub pages_of : List HugepageInfo → (n socket : ℕ) → ℕ
pages_of infos zero socket = 0
pages_of infos (suc n) socket = count_on infos socket + pages_of infos n (socket + 1)

-- What the sockets from `socket` to `socket + n` give.
pub record Serves (infos used : List HugepageInfo) (memory : List ℕ) (n socket : ℕ)
    (used' : List HugepageInfo) : Type 0 where
  pub within : (j : ℕ) → socket ≤ j → j < socket + n → Within j infos used'
  pub enough : (j : ℕ) → socket ≤ j → j < socket + n → get_or memory j 0 ≤ bytes_on used' j
  pub before : (j : ℕ) → j < socket → SameOn j used used'

abbrev pub Outcome :
    List HugepageInfo
    → List HugepageInfo
    → List ℕ
    → (n socket : ℕ) → Option (List HugepageInfo × ℕ)
    → Type 0
Outcome infos used memory n socket o =
    ((used' : List HugepageInfo) × (pages : ℕ) × (o ≡ some (used', pages))
      × Serves infos used memory n socket used')
    ⊎ ((j : ℕ) × (socket ≤ j)
        × (j < socket + n)
        × (bytes_on infos j < get_or memory j 0)
        × (o ≡ none))

none_wanted :
    (memory : List ℕ) (n socket j : ℕ)
    → wanted memory n socket ≡ 0
    → socket ≤ j
    → j < socket + n
    → get_or memory j 0 ≡ 0
none_wanted memory zero socket j e h k = absurd (omega arith)
none_wanted memory (suc n) socket j e h k = elim (Bool-cases (j == socket)) [
  | inl p ↦ ap (λ (t : ℕ). get_or memory t 0) ((==_iff j socket).0 p) ∙ omega (arith, e)
  | inr p ↦
      none_wanted memory n (socket + 1) j (omega (arith, e)) (ground (arith, p, h))
        (omega (arith, k))
]

within-count :
    (j : ℕ) (infos a b : List HugepageInfo)
    → IsUnused j infos a
    → SameElsewhere j a b
    → Within j infos b
    → count_on b j ≤ count_on infos j
within-count j [] [] b u h w = omega (arith, ap (λ (t : List HugepageInfo). count_on t j) h)
within-count j [] (x ∷ a) b u h w = absurd u
within-count j (i ∷ infos) [] b u h w = absurd u
within-count j (i ∷ infos) (x ∷ a) [] u h w = absurd h
within-count j (i ∷ infos) (x ∷ a) (y ∷ b) (u, us) (h, hs) (w, ws) =
    omega (arith, w, within-count j infos a b us hs ws)

-- One socket, then the others.
next-Serves :
    (infos used used1 used2 : List HugepageInfo) (memory : List ℕ) (n socket : ℕ)
    → SameElsewhere socket used used1
    → Within socket infos used1
    → get_or memory socket 0 ≤ bytes_on used1 socket
    → Serves infos used1 memory n (socket + 1) used2
    → Serves infos used memory (suc n) socket used2
next-Serves infos used used1 used2 memory n socket same w e v = record {
  within = λ j h k. elim (Bool-cases (j == socket)) [
    | inl p ↦ rw ((==_iff j socket).0 p) (SameOn-Within socket infos used1 used2 here w)
    | inr p ↦ v.within j (ground (arith, p, h)) (omega (arith, k))
  ];
  enough = λ j h k. elim (Bool-cases (j == socket)) [
    | inl p ↦ rw ((==_iff j socket).0 p, SameOn-bytes socket used1 used2 here) e
    | inr p ↦ v.enough j (ground (arith, p, h)) (omega (arith, k))
  ];
  before = λ j h.
      SameOn-trans j used used1 used2
        (elsewhere-SameOn socket j used used1 (λ q. absurd (omega (arith, q, h))) same)
        (v.before j (omega (arith, h)));
}
  where
    here : SameOn socket used1 used2
    here = v.before socket (omega arith)

-- Where nothing is used yet, nothing wraps and the sockets want in all what is wanted, the loop over
-- the sockets succeeds and each gives what is wanted from it and no more pages than it has; or it
-- fails, and one socket has less than what is wanted from it.
pub share_sockets_lem :
    (infos : List HugepageInfo) (memory : List ℕ) (n socket : ℕ) (used : List HugepageInfo)
    (total pages : ℕ)
    → ((j : ℕ) → socket ≤ j → j < socket + n → IsUnused j infos used)
    → ((j : ℕ) → bytes_on infos j < 2 ^ 64)
    → wanted memory n socket ≡ total
    → total < 2 ^ 64
    → pages + pages_of infos n socket < 2 ^ 32
    → Outcome infos used memory n socket (share_sockets infos n socket memory used total pages)
unfolding share_sockets
share_sockets_lem infos memory zero socket used total pages unused fit all word small =
    rw (sym all) (
      inl (
        used,
        pages,
        refl,
        record {
          within = λ j h k. absurd (omega (arith, h, k));
          enough = λ j h k. absurd (omega (arith, h, k));
          before = λ j h. SameOn-refl j used;
        },
      ))
share_sockets_lem infos memory (suc n) socket used total pages unused fit all word small =
    elim (Bool-cases (total == 0)) [
      | inl z ↦ rw z (
          inl (
            used,
            pages,
            refl,
            record {
              within = λ j h k. unused-Within j infos used (unused j h k);
              enough = λ j h k.
                  omega
                    (arith, none_wanted memory (suc n) socket j (all ∙ (==_iff total 0).0 z) h k);
              before = λ j h. SameOn-refl j used;
            },
          ))
      | inr nz ↦ elim (Bool-cases (s.memory == 0)) [
        | inl e ↦
            rw (nz, e)
              (later ((==_iff s.memory 0).0 e) (
                share_sockets_lem infos memory n (socket + 1) s.hp_used s.total_mem
                  s.total_num_pages unused_next fit (wanted_next ((==_iff s.memory 0).0 e))
                  word_next small_next))
        | inr ne ↦ rw (nz, ne) (inr (socket, omega arith, omega arith, too_little ne, refl))
      ]
    ]
  where
    s : Share
    s = share_socket socket infos used (get_or memory socket 0) total pages

    gives : Gives socket infos used (get_or memory socket 0) total pages s
    gives =
        share_socket_lem socket infos used (get_or memory socket 0) total pages
          (unused socket (omega arith) (omega arith)) (omega (arith, all)) word (fit socket)
          (omega (arith, small))

    too_little : (s.memory == 0) ≡ false → bytes_on infos socket < get_or memory socket 0
    too_little ne = elim (dec_lt (bytes_on infos socket) (get_or memory socket 0)) [
      | yes h ↦ h
      | no h ↦ absurd (ground (arith, ne, gives.enough (omega (arith, h))))
    ]

    unused_next : (j : ℕ) → socket + 1 ≤ j → j < socket + 1 + n → IsUnused j infos s.hp_used
    unused_next j h k =
        SameOn-IsUnused j infos used s.hp_used
          (elsewhere-SameOn socket j used s.hp_used (λ q. absurd (omega (arith, q, h)))
            gives.elsewhere)
          (unused j (omega (arith, h)) (omega (arith, k)))

    wanted_next : s.memory ≡ 0 → wanted memory n (socket + 1) ≡ s.total_mem
    wanted_next e = omega (arith, gives.total, all, e)

    word_next : s.total_mem < 2 ^ 64
    word_next = omega (arith, gives.total, gives.less, word)

    small_next : s.total_num_pages + pages_of infos n (socket + 1) < 2 ^ 32
    small_next = omega (
      arith,
      gives.counted,
      small,
      within-count socket infos used s.hp_used (unused socket (omega arith) (omega arith))
          gives.elsewhere gives.within,
    )

    later :
        s.memory ≡ 0
        → Outcome infos s.hp_used memory n
            (socket + 1)
            (share_sockets infos n (socket + 1) memory s.hp_used s.total_mem s.total_num_pages)
        → Outcome infos used memory
            (suc n)
            socket
            (share_sockets infos n (socket + 1) memory s.hp_used s.total_mem s.total_num_pages)
    later e (inl (used', pages', ran, v)) = inl (
      used',
      pages',
      ran,
      next-Serves infos used s.hp_used used' memory n socket gives.elsewhere gives.within
          (omega (arith, gives.covered, e)) v,
    )
    later e (inr (j, h, k, less, ran)) = inr (j, omega (arith, h), omega (arith, k), less, ran)

-- Where nothing is used yet, nothing wraps and the sockets are to give in all the memory of the
-- configuration, the computation of the pages succeeds and every socket gives what it is to give and
-- no more pages of a size than it has; or it fails, and one socket has less than it is to give.
pub calc_num_pages_lem :
    (config : InternalConfig) (cores : Cores) (memory : List ℕ) (info : HugepageInfo)
    (infos hp_used : List HugepageInfo)
    → ((j : ℕ) → j < max_numa_nodes → IsUnused j (info ∷ infos) hp_used)
    → ((j : ℕ) → bytes_on (info ∷ infos) j < 2 ^ 64)
    → wanted (default_memory config cores memory) max_numa_nodes 0 ≡ config.memory
    → config.memory < 2 ^ 64
    → pages_of (info ∷ infos) max_numa_nodes 0 < 2 ^ 32
    → Outcome
        (info ∷ infos)
        hp_used
        (default_memory config cores memory)
        max_numa_nodes
        0
        (calc_num_pages_per_socket config cores memory (info ∷ infos) hp_used)
unfolding calc_num_pages_per_socket
calc_num_pages_lem config cores memory info infos hp_used unused fit all word small =
    share_sockets_lem (info ∷ infos) (default_memory config cores memory) max_numa_nodes 0 hp_used
      config.memory 0 (λ j h k. unused j (omega (arith, k))) fit all word (omega (arith, small))
