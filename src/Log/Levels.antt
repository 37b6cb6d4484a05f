-- ===== src/Log/Levels.antt =====
-- What a level that is set does to the messages: `rte_log_set_level` against `rte_vlog`.
use rte_demo.Prelude.{
  ℕ, ◌≤◌, ◌<◌, ◌≡◌, ◌≢◌, refl, sym, ap, ◌⊎◌, inl, inr, ◌↔◌, arith, length, length-set, get_or, set,
  get_or-set_self, get_or-set_ne, none, some, Bool-cases, true, false, ltb, leb,
}
use rte_demo.Log.{LogType, no_type, Logs, log_debug, get_level, set_level, vlog, written}

-- A message of a registered type is written exactly up to both levels.
vlog-written :
    (logs : Logs) (type_id level : ℕ)
    → leb (length logs.dynamic_types) type_id ≡ false
    → (get_or logs.dynamic_types type_id no_type).loglevel ≡ level
    → (l : ℕ) → (vlog logs l type_id ≡ written) ↔ ((l ≤ logs.level) × (l ≤ level))
unfolding vlog
vlog-written logs type_id level e at l = elim (Bool-cases (ltb logs.level l)) [
  | inl f ↦ (λ w. absurd (cc (rw f at w)), λ (a, b). absurd (ground (arith, f, a)))
  | inr f ↦ elim (Bool-cases (ltb level l)) [
    | inl g ↦ (λ w. absurd (cc (rw (f, e, at, g) at w)), λ (a, b). absurd (ground (arith, g, b)))
    | inr g ↦ (λ w. (ground (arith, f), ground (arith, g)), λ (a, b). rw (f, e, at, g) refl)
  ]
]

module _ (logs : Logs) (type_id level : ℕ) where
  abbrev t' : LogType
  t' = record (get_or logs.dynamic_types type_id no_type) { loglevel = level }

  abbrev changed : Logs
  changed = record logs { dynamic_types = set logs.dynamic_types type_id t' }

  refused_type :
      leb (length logs.dynamic_types) type_id ≡ true → set_level logs type_id level ≡ none
  unfolding set_level
  refused_type e = rw e refl

  module _ (e : leb (length logs.dynamic_types) type_id ≡ false) where
    refused_level : ltb log_debug level ≡ true → set_level logs type_id level ≡ none
    unfolding set_level
    refused_level f = rw (e, f) refl

    done : ltb log_debug level ≡ false → set_level logs type_id level ≡ some changed
    unfolding set_level
    done f = rw (e, f) refl

    there : leb (length changed.dynamic_types) type_id ≡ false
    there = rw (length-set logs.dynamic_types type_id t') e

    at : get_or changed.dynamic_types type_id no_type ≡ t'
    at = get_or-set_self logs.dynamic_types type_id t' no_type (ground (arith, e))

    back : get_level changed type_id ≡ some level
    unfolding get_level
    back = rw there (ap (λ (t : LogType). some t.loglevel) at)

  untouched : (l t : ℕ) → t ≢ type_id → vlog changed l t ≡ vlog logs l t
  unfolding vlog
  untouched l t ne =
      rw
        (
          length-set logs.dynamic_types type_id t',
          get_or-set_ne logs.dynamic_types type_id t t' no_type (λ p. ne (sym p)),
        )
        refl

-- Setting the level of a type fails exactly where the type is not registered or the level is above
-- RTE_LOG_DEBUG; otherwise the level can be read back, the messages of the type are written exactly up to
-- this level and the global one, and what becomes of the messages of other types does not change.
pub set_level_lem :
    (logs : Logs) (type_id level : ℕ)
    → (((length logs.dynamic_types ≤ type_id) ⊎ (log_debug < level))
        × (set_level logs type_id level ≡ none))
      ⊎ ((logs' : Logs) × (set_level logs type_id level ≡ some logs')
          × (get_level logs' type_id ≡ some level)
          × ((l : ℕ) → (vlog logs' l type_id ≡ written) ↔ ((l ≤ logs.level) × (l ≤ level)))
          × ((l t : ℕ) → t ≢ type_id → vlog logs' l t ≡ vlog logs l t))
set_level_lem logs type_id level = elim (Bool-cases (leb (length logs.dynamic_types) type_id)) [
  | inl e ↦ inl (inl (ground (arith, e)), refused_type logs type_id level e)
  | inr e ↦ elim (Bool-cases (ltb log_debug level)) [
    | inl f ↦ inl (inr (ground (arith, f)), refused_level logs type_id level e f)
    | inr f ↦ inr (
      changed logs type_id level,
      done logs type_id level e f,
      back logs type_id level e,
      vlog-written (changed logs type_id level) type_id level (there logs type_id level e)
          (ap (λ (t : LogType). t.loglevel) (at logs type_id level e)),
      untouched logs type_id level,
    )
  ]
]
