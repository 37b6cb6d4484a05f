-- ===== src/Tailq/Entries.antt =====
-- The lists of `struct rte_tailq_entry` (lib/common/include/rte_tailq.h) in which rings and pools
-- are registered: the macros TAILQ_INSERT_TAIL, TAILQ_FOREACH with a break, and TAILQ_REMOVE.
use rte_demo.Prelude.{
  ℕ, ◌≡◌, ◌≢◌, refl, sym, ap, ◌∙◌, ◌⊎◌, inl, inr, ◌↔◌, arith, List, [], ◌∷◌, ◌++◌, Option, none,
  some, Bool, Bool-cases, true, false, ◌==◌, ==_iff, if◌then◌else◌,
}

-- `te` is the address of the entry, `item` what it points to.
pub record Entry : Type 0 where
  pub te : ℕ
  pub item : ℕ

-- The first entry that the test accepts.
unfoldable pub find_entry : (Entry → Bool) → List Entry → Option Entry
find_entry test [] = none
find_entry test (e ∷ entries) =
    let rest = find_entry test entries in if test e then some e else rest

-- The list without the first entry for the item.
unfoldable pub remove_entry : ℕ → List Entry → List Entry
remove_entry item [] = []
remove_entry item (e ∷ entries) =
    let rest = e ∷ remove_entry item entries in if e.item == item then entries else rest

-- The entries of a list, as a predicate; it counts nothing.
abbrev pub In : Entry → List Entry → Type 0
In e [] = ⊥
In e (x ∷ entries) = (e ≡ x) ⊎ In e entries

-- No two entries are for the same item.
abbrev pub Apart : List Entry → Type 0
Apart [] = Unit {0}
Apart (x ∷ entries) = ((e : Entry) → In e entries → e.item ≢ x.item) × Apart entries

pub In-append : (e : Entry) (xs ys : List Entry) → In e (xs ++ ys) → In e xs ⊎ In e ys
In-append e [] ys h = inr h
In-append e (x ∷ xs) ys (inl p) = inl (inl p)
In-append e (x ∷ xs) ys (inr p) = elim (In-append e xs ys p) [ inl q ↦ inl (inr q) | inr q ↦ inr q ]

pub In-front : (e : Entry) (xs ys : List Entry) → In e xs → In e (xs ++ ys)
In-front e [] ys h = elim h [ ]
In-front e (x ∷ xs) ys (inl p) = inl p
In-front e (x ∷ xs) ys (inr p) = inr (In-front e xs ys p)

-- An entry for a new item keeps the items apart.
pub Apart-append :
    (xs : List Entry) (y : Entry)
    → Apart xs
    → ((e : Entry) → In e xs → e.item ≢ y.item)
    → Apart (xs ++ (y ∷ []))
Apart-append [] y a new = (λ e h. elim h [ ], tt)
Apart-append (x ∷ xs) y (first, rest) new = (
  λ e h. elim (In-append e xs (y ∷ []) h) [
    | inl p ↦ first e p
    | inr p ↦ elim p [
      | inl q ↦ λ same. new x (inl refl) (sym same ∙ ap (λ (t : Entry). t.item) q)
      | inr q ↦ absurd q
    ]
  ],
  Apart-append xs y rest (λ e h. new e (inr h)),
)

-- A search that finds nothing, and one that finds an entry.
pub find_entry-none :
    (test : Entry → Bool) (xs : List Entry)
    → ((e : Entry) → In e xs → test e ≡ false)
    → find_entry test xs ≡ none
unfolding find_entry
find_entry-none test [] h = refl
find_entry-none test (x ∷ xs) h = rw (h x (inl refl)) (find_entry-none test xs (λ e p. h e (inr p)))

pub find_entry-append :
    (test : Entry → Bool) (xs : List Entry) (y : Entry)
    → ((e : Entry) → In e xs → test e ≡ false)
    → test y ≡ true
    → find_entry test (xs ++ (y ∷ [])) ≡ some y
unfolding find_entry
find_entry-append test [] y h hit = rw hit refl
find_entry-append test (x ∷ xs) y h hit =
    rw (h x (inl refl)) (find_entry-append test xs y (λ e p. h e (inr p)) hit)

-- A search in a list to which something is added still finds what it found.
pub find_entry-kept :
    (test : Entry → Bool) (xs ys : List Entry) (e : Entry)
    → find_entry test xs ≡ some e
    → find_entry test (xs ++ ys) ≡ some e
unfolding find_entry
find_entry-kept test [] ys e h = absurd (ground (arith, h))
find_entry-kept test (x ∷ xs) ys e h = elim (Bool-cases (test x)) [
  | inl p ↦ rw p (found p h)
  | inr p ↦ rw p (find_entry-kept test xs ys e (later p h))
]
  where
    found : test x ≡ true → find_entry test (x ∷ xs) ≡ some e → some x ≡ some e
    found p q = ground (arith, p, q)

    later : test x ≡ false → find_entry test (x ∷ xs) ≡ some e → find_entry test xs ≡ some e
    later p q = ground (arith, p, q)

-- What an entry that is found is.
pub find_entry-In :
    (test : Entry → Bool) (xs : List Entry) (e : Entry)
    → find_entry test xs ≡ some e
    → In e xs × (test e ≡ true)
unfolding find_entry
find_entry-In test [] e h = absurd (ground (arith, h))
find_entry-In test (x ∷ xs) e h = elim (Bool-cases (test x)) [
  | inl p ↦ (inl (sym (found p h)), rw (sym (found p h)) p)
  | inr p ↦ let (q, r) = find_entry-In test xs e (later p h) in (inr q, r)
]
  where
    found : test x ≡ true → find_entry test (x ∷ xs) ≡ some e → x ≡ e
    found p q = ground (arith, p, q)

    later : test x ≡ false → find_entry test (x ∷ xs) ≡ some e → find_entry test xs ≡ some e
    later p q = ground (arith, p, q)

-- Where no two entries are for the same item, the removal leaves the entries for the others.
pub remove_entry-In :
    (item : ℕ) (xs : List Entry) (e : Entry)
    → Apart xs
    → In e (remove_entry item xs) ↔ (In e xs × (e.item ≢ item))
unfolding remove_entry
remove_entry-In item [] e a = (λ h. elim h [ ], λ h. h.0)
remove_entry-In item (x ∷ xs) e (first, rest) = elim (Bool-cases (x.item == item)) [
  | inl p ↦ rw p (
    λ h. (inr h, λ same. first e h (same ∙ sym ((==_iff x.item item).0 p))),
    λ h. elim h.0 [
      | inl q ↦ absurd (h.1 (ap (λ (t : Entry). t.item) q ∙ (==_iff x.item item).0 p))
      | inr q ↦ q
    ],
  )
  | inr p ↦
      let later = remove_entry-In item xs e rest in
      rw p (
        λ h. elim h [
          | inl q ↦
              (inl q, λ same. absurd (ground (arith, p, ap (λ (t : Entry). t.item) (sym q) ∙ same)))
          | inr q ↦ (inr (later.0 q).0, (later.0 q).1)
        ],
        λ h. elim h.0 [ inl q ↦ inl q | inr q ↦ inr (later.1 (q, h.1)) ],
      )
]

pub Apart-remove : (item : ℕ) (xs : List Entry) → Apart xs → Apart (remove_entry item xs)
unfolding remove_entry
Apart-remove item [] a = tt
Apart-remove item (x ∷ xs) (first, rest) = elim (Bool-cases (x.item == item)) [
  | inl p ↦ rw p rest
  | inr p ↦
      rw p (λ e h. first e ((remove_entry-In item xs e rest).0 h).0, Apart-remove item xs rest)
]

pub find_entry-missed :
    (test : Entry → Bool) (xs : List Entry) (e : Entry)
    → find_entry test xs ≡ none
    → In e xs
    → test e ≡ false
unfolding find_entry
find_entry-missed test [] e h p = elim p [ ]
find_entry-missed test (x ∷ xs) e h p = elim (Bool-cases (test x)) [
  | inl hit ↦ absurd (ground (arith, h, hit))
  | inr miss ↦ elim p [ inl q ↦ rw q miss | inr q ↦ find_entry-missed test xs e (later miss h) q ]
]
  where
    later : test x ≡ false → find_entry test (x ∷ xs) ≡ none → find_entry test xs ≡ none
    later m q = ground (arith, m, q)
