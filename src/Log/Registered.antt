-- ===== src/Log/Registered.antt =====
-- Registration of log types: `rte_log_register` against the lookup and the levels.
use rte_demo.Prelude.{
  ℕ, zero, suc, ◌+◌, ◌≤◌, ◌<◌, ◌≡◌, ◌≢◌, refl, sym, ap, ◌∙◌, ◌⊎◌, inl, inr, arith, List, [], ◌∷◌,
  ◌++◌, length, length-append, get_or, set, Option, none, some, Bool, Bool-cases, true, false, leb,
  dec_lt, Option-cases, same_name, same_name_refl, same_name_eq,
}
use rte_demo.Log.{
  LogType, no_type, Logs, log_info, get_level, matched, lookup_from, log_lookup, register_type,
  register_new, log_register,
}

set_last : (xs : List LogType) (a b : LogType) → set (xs ++ (a ∷ [])) (length xs) b ≡ xs ++ (b ∷ [])
set_last [] a b = refl
set_last (x ∷ xs) a b = ap (λ (l : List LogType). x ∷ l) (set_last xs a b)

get_or_last : (xs : List LogType) (a d : LogType) → get_or (xs ++ (a ∷ [])) (length xs) d ≡ a
get_or_last [] a d = refl
get_or_last (x ∷ xs) a d = get_or_last xs a d

get_or_before :
    (xs : List LogType) (a d : LogType) (i : ℕ)
    → i < length xs
    → get_or (xs ++ (a ∷ [])) i d ≡ get_or xs i d
get_or_before [] a d i h = absurd (omega (arith, h))
get_or_before (x ∷ xs) a d zero h = refl
get_or_before (x ∷ xs) a d (suc i) h = get_or_before xs a d i (omega (arith, h))

-- No name is there twice: a lookup of the name of an entry finds this entry.
abbrev pub IsDistinct : Logs → Type 0
IsDistinct logs =
    (i : ℕ) (name : List ℕ)
    → i < length logs.dynamic_types
    → (get_or logs.dynamic_types i no_type).name ≡ some name
    → log_lookup logs name ≡ some i

-- A lookup finds an entry of the old table first, and then the new one.
lookup_found :
    (name : List ℕ) (i k : ℕ) (types : List LogType) (t : LogType)
    → lookup_from name i types ≡ some k
    → lookup_from name i (types ++ (t ∷ [])) ≡ some k
unfolding lookup_from
lookup_found name i k [] t e = absurd (cc e)
lookup_found name i k (x ∷ types) t e = elim (Bool-cases (matched (same_name name) x.name)) [
  | inl h ↦ rw h (rw h at e)
  | inr h ↦ rw h (lookup_found name (i + 1) k types t (rw h at e))
]

lookup_last :
    (name : List ℕ) (i : ℕ) (types : List LogType) (t : LogType)
    → lookup_from name i types ≡ none
    → matched (same_name name) t.name ≡ true
    → lookup_from name i (types ++ (t ∷ [])) ≡ some (i + length types)
unfolding lookup_from
lookup_last name i [] t e m = rw m (ap some (omega arith))
lookup_last name i (x ∷ types) t e m = elim (Bool-cases (matched (same_name name) x.name)) [
  | inl h ↦ absurd (cc (rw h at e))
  | inr h ↦ rw h (lookup_last name (i + 1) types t (rw h at e) m ∙ ap some (omega arith))
]

lookup_same :
    (name : List ℕ) (i : ℕ) (types : List LogType) (t : LogType)
    → matched (same_name name) t.name ≡ false
    → lookup_from name i (types ++ (t ∷ [])) ≡ lookup_from name i types
unfolding lookup_from
lookup_same name i [] t m = rw m refl
lookup_same name i (x ∷ types) t m = elim (Bool-cases (matched (same_name name) x.name)) [
  | inl h ↦ rw h refl
  | inr h ↦ rw h (lookup_same name (i + 1) types t m)
]

abbrev new_type : List ℕ → LogType
new_type name = record { name = some name; loglevel = log_info }

abbrev with_new : Logs → List ℕ → Logs
with_new logs name = record logs { dynamic_types = logs.dynamic_types ++ (new_type name ∷ []) }

-- What a registration of a new name leaves.
pub record IsNew (logs : Logs) (name : List ℕ) (logs' : Logs) : Type 0 where
  pub found : log_lookup logs' name ≡ some (length logs.dynamic_types)
  pub info : get_level logs' (length logs.dynamic_types) ≡ some log_info
  pub others : (n : List ℕ) → n ≢ name → log_lookup logs' n ≡ log_lookup logs n
  pub levels : (i : ℕ) → i < length logs.dynamic_types → get_level logs' i ≡ get_level logs i

module _ (logs : Logs) (name : List ℕ) (free : log_lookup logs name ≡ none) where
  with_new-IsNew : IsNew logs name (with_new logs name)
  unfolding log_lookup get_level
  with_new-IsNew = record {
    found =
        lookup_last name 0 logs.dynamic_types (new_type name) free (same_name_refl name)
        ∙ ap some (omega arith);
    info = rw (within (length logs.dynamic_types) (omega arith)) (
        ap (λ (t : LogType). some t.loglevel)
          (get_or_last logs.dynamic_types (new_type name) no_type));
    others = λ n ne. lookup_same n 0 logs.dynamic_types (new_type name) (apart n ne);
    levels = λ i h.
        rw (within i (omega (arith, h)), before i h)
          (ap (λ (t : LogType). some t.loglevel)
            (get_or_before logs.dynamic_types (new_type name) no_type i h));
  }
    where
      within :
          (i : ℕ)
          → i ≤ length logs.dynamic_types
          → leb (length (logs.dynamic_types ++ (new_type name ∷ []))) i ≡ false
      within i h = ground (arith, h, length-append logs.dynamic_types (new_type name ∷ []))

      before : (i : ℕ) → i < length logs.dynamic_types → leb (length logs.dynamic_types) i ≡ false
      before i h = ground (arith, h)

      apart : (n : List ℕ) → n ≢ name → same_name n name ≡ false
      apart n ne = elim (Bool-cases (same_name n name)) [
        | inl e ↦ absurd (ne (same_name_eq n name e))
        | inr e ↦ e
      ]

  with_new-IsDistinct : IsDistinct logs → IsDistinct (with_new logs name)
  unfolding log_lookup
  with_new-IsDistinct d i n h e = elim (dec_lt i (length logs.dynamic_types)) [
    | yes k ↦ lookup_found n 0 i logs.dynamic_types (new_type name) (
        d i n k (
          sym (
            ap (λ (t : LogType). t.name)
              (get_or_before logs.dynamic_types (new_type name) no_type i k))
          ∙ e))
    | no k ↦ last i n (omega (arith, h, k, length-append logs.dynamic_types (new_type name ∷ []))) e
  ]
    where
      last :
          (i : ℕ) (n : List ℕ)
          → i ≡ length logs.dynamic_types
          → (get_or (logs.dynamic_types ++ (new_type name ∷ [])) i no_type).name ≡ some n
          → log_lookup (with_new logs name) n ≡ some i
      last i n at e = rw (at, sym same) with_new-IsNew.found
        where
          same : name ≡ n
          same = cc (
            ap (λ (t : LogType). t.name) (get_or_last logs.dynamic_types (new_type name) no_type),
            rw at at e,
          )

-- The result of a registration and the table after it, as one of the three ends.
abbrev pub Outcome : (grown copied : Bool) → Logs → List ℕ → Option ℕ × Logs → Type 0
Outcome grown copied logs name (r, logs') =
    ((id : ℕ) × (log_lookup logs name ≡ some id) × (r ≡ some id) × (logs' ≡ logs))
    ⊎ ((log_lookup logs name ≡ none)
        × ((grown ≡ false) ⊎ (copied ≡ false))
        × (r ≡ none)
        × (logs' ≡ logs))
    ⊎ ((log_lookup logs name ≡ none)
        × (r ≡ some (length logs.dynamic_types))
        × IsNew logs name logs')

register_new_lem :
    (grown copied : Bool) (behind : LogType) (logs : Logs) (name : List ℕ)
    → log_lookup logs name ≡ none
    → IsDistinct logs
    → IsDistinct (register_new grown copied behind logs name none).1
      × Outcome grown copied logs name (register_new grown copied behind logs name none)
unfolding register_new register_type
register_new_lem false copied behind logs name e d = (d, inr (inl (e, inl refl, refl, refl)))
register_new_lem true false behind logs name e d = (d, inr (inl (e, inr refl, refl, refl)))
register_new_lem true true behind logs name e d =
    rw (set_last logs.dynamic_types behind (new_type name))
      (with_new-IsDistinct logs name e d, inr (inr (e, refl, with_new-IsNew logs name e)))

-- In a table in which no name is twice, a registration ends in one of three ways: the name is there,
-- its number is returned and nothing changes; or the name is new and memory is lacking, and nothing
-- changes; or the name is new and gets the number behind the others and the level RTE_LOG_INFO, a
-- lookup then finds it, and all other names and levels are as before. No name is twice afterwards.
pub log_register_lem :
    (grown copied : Bool) (behind : LogType) (logs : Logs) (name : List ℕ)
    → IsDistinct logs
    → IsDistinct (log_register grown copied behind logs name).1
      × Outcome grown copied logs name (log_register grown copied behind logs name)
unfolding log_register register_new
log_register_lem grown copied behind logs name d = elim (Option-cases (log_lookup logs name)) [
  | inl e ↦ rw e (rw e at (register_new_lem grown copied behind logs name e d))
  | inr (id, e) ↦ rw e (d, inl (id, refl, refl, refl))
]
