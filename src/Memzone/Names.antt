-- ===== src/Memzone/Names.antt =====
-- The table of zones: which indices the searches find, and what a change of one entry does.
use rte_demo.Prelude.{
  ℕ, zero, suc, ◌+◌, ◌≤◌, ◌<◌, ◌≡◌, refl, ap, ◌∙◌, ◌⊎◌, inl, inr, arith, List, [], ◌∷◌, length,
  get_or, set, Option, none, some, Bool, Bool-cases, true, false, ◌==◌, if◌then◌else◌,
}
use rte_demo.Memzone.Types.{Zone, no_zone, max_memzone, Config, first_zone, is_used}

-- The zone at an index.
abbrev pub zone : List Zone → ℕ → Zone
zone zs i = get_or zs i no_zone

-- What a search from the index `b` on finds.
abbrev Search : (Zone → Bool) → List Zone → ℕ → Option ℕ → Type 0
Search test zs b o =
    ((o ≡ none) × ((k : ℕ) → k < length zs → test (zone zs k) ≡ false))
    ⊎ ((k : ℕ) × (o ≡ some (b + k))
        × (k < length zs)
        × (test (zone zs k) ≡ true)
        × ((j : ℕ) → j < k → test (zone zs j) ≡ false))

past :
    (test : Zone → Bool) (z : Zone) (zs : List Zone) (n : ℕ)
    → test z ≡ false
    → ((k : ℕ) → k < n → test (zone zs k) ≡ false)
    → (k : ℕ) → k < suc n
    → test (zone (z ∷ zs) k) ≡ false
past test z zs n e h zero p = e
past test z zs n e h (suc k) p = h k (omega arith)

pub search_lem :
    (test : Zone → Bool) (zs : List Zone) (b : ℕ) → Search test zs b (first_zone test zs b)
unfolding first_zone
search_lem test [] b = inl (refl, λ k h. elim h [ ])
search_lem test (z ∷ zs) b = elim (Bool-cases (test z)) [
  | inl e ↦ inr (0, rw e (ap some (omega arith)), omega arith, e, λ j h. absurd (omega arith))
  | inr e ↦ elim (search_lem test zs (b + 1)) [
    | inl (ran, none_found) ↦ inl (rw e ran, past test z zs (length zs) e none_found)
    | inr (k, ran, h, found, first) ↦
        inr
          (suc k, rw e (ran ∙ ap some (omega arith)), omega arith, found, past test z zs k e first)
  ]
]

-- The number of zones in use.
abbrev pub used_count : List Zone → ℕ
used_count [] = 0
used_count (z ∷ zs) = (if is_used z then 1 else 0) + used_count zs

pub used_count-fill :
    (zs : List Zone) (i : ℕ) (z : Zone)
    → i < length zs
    → is_used (zone zs i) ≡ false
    → is_used z ≡ true
    → used_count (set zs i z) ≡ used_count zs + 1
used_count-fill [] i z h e f = elim h [ ]
used_count-fill (x ∷ zs) zero z h e f = rw (e, f) (omega arith)
used_count-fill (x ∷ zs) (suc i) z h e f = omega (arith, used_count-fill zs i z (omega arith) e f)

pub used_count-clear :
    (zs : List Zone) (i : ℕ)
    → i < length zs
    → is_used (zone zs i) ≡ true
    → used_count (set zs i no_zone) + 1 ≡ used_count zs
used_count-clear [] i h e = elim h [ ]
used_count-clear (x ∷ zs) zero h e = rw e (omega arith)
used_count-clear (x ∷ zs) (suc i) h e = omega (arith, used_count-clear zs i (omega arith) e)

pub used_count-small : (zs : List Zone) → used_count zs ≤ length zs
used_count-small [] = omega arith
used_count-small (z ∷ zs) = ground (arith, used_count-small zs)

-- The table of zones is in order: as many are in use as the count says, and no two of them have the
-- same name.
pub record IsZones (mcfg : Config) : Type 0 where
  pub full : length mcfg.memzone ≡ max_memzone
  pub counted : mcfg.memzone_cnt ≡ used_count mcfg.memzone
  pub unique :
      (i j : ℕ)
      → is_used (zone mcfg.memzone i) ≡ true
      → is_used (zone mcfg.memzone j) ≡ true
      → (zone mcfg.memzone i).name ≡ (zone mcfg.memzone j).name
      → i ≡ j

pub all_used :
    (zs : List Zone)
    → ((k : ℕ) → k < length zs → ((zone zs k).addr == 0) ≡ false)
    → used_count zs ≡ length zs
all_used [] h = refl
all_used (z ∷ zs) h =
    rw (h 0 (omega arith)) (omega (arith, all_used zs (λ k p. h (suc k) (omega arith))))
