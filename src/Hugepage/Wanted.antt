-- ===== src/Hugepage/Wanted.antt =====
-- What a socket has and gives: the statement about `share_socket`, and the numbers of one size.
use native.Mathlib.Nat.{mul_comm, suc-mul, div-mul-le_self, lt-div-mul-add, mul-le-mul_right}
use rte_demo.Prelude.{
  ℕ, suc, ◌+◌, ◌*◌, ◌/◌, ◌^◌, ◌≤◌, ◌<◌, ◌≡◌, ◌≢◌, refl, arith, List, [], ◌∷◌, length, get_or, min,
  false, ltb,
}
use rte_demo.Hugepage.Types.{HugepageInfo}
use rte_demo.Hugepage.Share.{remaining_mem, Share}

-- The number of pages of a size on a socket.
abbrev pub pages_on : HugepageInfo → ℕ → ℕ
pages_on info socket = get_or info.num_pages socket 0

-- The bytes and the pages that a table has on a socket.
abbrev pub bytes_on : List HugepageInfo → ℕ → ℕ
bytes_on [] socket = 0
bytes_on (info ∷ infos) socket = pages_on info socket * info.hugepage_sz + bytes_on infos socket

abbrev pub count_on : List HugepageInfo → ℕ → ℕ
count_on [] socket = 0
count_on (info ∷ infos) socket = pages_on info socket + count_on infos socket

-- The two tables have the same sizes, and nothing is used on the socket yet.
abbrev pub IsUnused : (socket : ℕ) → List HugepageInfo → List HugepageInfo → Type 0
IsUnused socket [] [] = Unit {0}
IsUnused socket [] (u ∷ used) = ⊥
IsUnused socket (info ∷ infos) [] = ⊥
IsUnused socket (info ∷ infos) (u ∷ used) =
    ((0 < info.hugepage_sz)
      × (u.hugepage_sz ≡ info.hugepage_sz)
      × (pages_on u socket ≡ 0)
      × (socket < length u.num_pages))
    × IsUnused socket infos used

-- No more pages are used than there are.
abbrev pub Within : (socket : ℕ) → List HugepageInfo → List HugepageInfo → Type 0
Within socket [] used = Unit {0}
Within socket (info ∷ infos) [] = Unit {0}
Within socket (info ∷ infos) (u ∷ used) =
    (pages_on u socket ≤ pages_on info socket) × Within socket infos used

-- The pages of the other sockets and the sizes are the same.
abbrev pub SameElsewhere : (socket : ℕ) → List HugepageInfo → List HugepageInfo → Type 0
SameElsewhere socket [] used = used ≡ []
SameElsewhere socket (u ∷ used) [] = ⊥
SameElsewhere socket (u ∷ used) (u' ∷ used') =
    ((u'.hugepage_sz ≡ u.hugepage_sz)
      × (length u'.num_pages ≡ length u.num_pages)
      × ((j : ℕ) → j ≢ socket → pages_on u' j ≡ pages_on u j))
    × SameElsewhere socket used used'

-- What a socket gives towards `memory` bytes.
pub record Gives (socket : ℕ) (infos used : List HugepageInfo) (memory total_mem pages : ℕ)
    (s : Share) : Type 0 where
  pub less : s.memory ≤ memory
  pub covered : memory ≤ bytes_on s.hp_used socket + s.memory
  pub total : s.total_mem + memory ≡ total_mem + s.memory
  pub enough : memory ≤ bytes_on infos socket → s.memory ≡ 0
  pub needed : s.memory ≡ 0 → memory ≤ bytes_on infos socket
  pub within : Within socket infos s.hp_used
  pub counted : s.total_num_pages ≡ pages + count_on s.hp_used socket
  pub elsewhere : SameElsewhere socket used s.hp_used

pub SameElsewhere-refl : (socket : ℕ) (used : List HugepageInfo) → SameElsewhere socket used used
SameElsewhere-refl socket [] = refl
SameElsewhere-refl socket (u ∷ used) = ((refl, refl, λ j ne. refl), SameElsewhere-refl socket used)

pub unused-Within :
    (socket : ℕ) (infos used : List HugepageInfo)
    → IsUnused socket infos used
    → Within socket infos used
unused-Within socket [] used h = tt
unused-Within socket (info ∷ infos) [] h = tt
unused-Within socket (info ∷ infos) (u ∷ used) (h, r) =
    (omega (arith, h.2), unused-Within socket infos used r)

pub unused-bytes :
    (socket : ℕ) (infos used : List HugepageInfo)
    → IsUnused socket infos used
    → (bytes_on used socket ≡ 0) × (count_on used socket ≡ 0)
unused-bytes socket [] [] h = (refl, refl)
unused-bytes socket [] (u ∷ used) h = absurd h
unused-bytes socket (info ∷ infos) [] h = absurd h
unused-bytes socket (info ∷ infos) (u ∷ used) (h, r) = (
  rw h.2 (omega (arith, (unused-bytes socket infos used r).0)),
  omega (arith, h.2, (unused-bytes socket infos used r).1),
)

pub later_lem : (a b : ℕ) → ltb a b ≡ false → b ≤ a
later_lem a b e = ground arith

-- Nothing is taken.
pub nothing_lem :
    (socket : ℕ) (infos used : List HugepageInfo) (memory total pages : ℕ)
    → IsUnused socket infos used
    → (memory ≤ bytes_on infos socket → memory ≡ 0)
    → Gives socket infos used memory total pages
        (record { hp_used = used; memory = memory; total_mem = total; total_num_pages = pages })
nothing_lem socket infos used memory total pages h none_wanted = record {
  less = omega arith;
  covered = omega arith;
  total = refl;
  enough = none_wanted;
  needed = λ e. omega (arith, e);
  within = unused-Within socket infos used h;
  counted = omega (arith, (unused-bytes socket infos used h).1);
  elsewhere = SameElsewhere-refl socket used;
}

pub remaining-bytes :
    (socket : ℕ) (infos : List HugepageInfo)
    → bytes_on infos socket < 2 ^ 64
    → remaining_mem socket infos ≡ bytes_on infos socket
unfolding remaining_mem
remaining-bytes socket [] h = refl
remaining-bytes socket (info ∷ infos) h = omega (
  arith,
  h,
  remaining-bytes socket infos (omega arith),
  mul_comm info.hugepage_sz (pages_on info socket),
)

-- The pages of `sz` bytes that are taken first.
abbrev pub whole_pages : (memory sz available : ℕ) → ℕ
whole_pages memory sz available = min (memory / sz) available

pub taken-le : (memory sz available : ℕ) → whole_pages memory sz available * sz ≤ memory
taken-le memory sz available = omega (
  arith,
  div-mul-le_self memory sz,
  mul-le-mul_right {m = whole_pages memory sz available} {n = memory / sz} sz (omega arith),
)

pub short :
    (memory sz available : ℕ)
    → 0 < sz
    → whole_pages memory sz available < available
    → memory < whole_pages memory sz available * sz + sz
short memory sz available positive h = rw quotient (lt-div-mul-add {a = memory} {b = sz} positive)
  where
    quotient : whole_pages memory sz available ≡ memory / sz
    quotient = omega (arith, h)

-- `m` pages of a size where there are `k`.
pub pages-bytes : (m k sz : ℕ) → m ≤ k → m * sz ≤ k * sz
pages-bytes m k sz h = mul-le-mul_right {m = m} {n = k} sz h

pub one_page_more : (m k sz : ℕ) → m < k → m * sz + sz ≤ k * sz
one_page_more m k sz h = omega (arith, suc-mul m sz, pages-bytes (suc m) k sz (omega arith))
