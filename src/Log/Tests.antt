-- ===== src/Log/Tests.antt =====
-- Two types of messages, a third that is registered, and a level that is set.
use rte_demo.Prelude.{
  ℕ, zero, suc, ◌≤◌, ◌<◌, ◌≡◌, ◌≢◌, refl, sym, ◌⊎◌, ◌↔◌, arith, [], ◌∷◌, none, some, true,
}
use rte_demo.Log.{
  no_type, Logs, log_debug, get_level, set_level, vlog, written, lookup_from, log_lookup,
  log_register,
}
use rte_demo.Log.Registered.{IsDistinct, Outcome, log_register_lem}
use rte_demo.Log.Levels.{set_level_lem}
use rte_demo.Log.Initial.{log_init}

abbrev two_types : Logs
two_types = record {
  level = 8;
  dynamic_types = record { name = some (101 ∷ 97 ∷ 108 ∷ []); loglevel = 7 } ∷ no_type ∷ [];
}

two_types-IsDistinct : IsDistinct two_types
unfolding log_lookup lookup_from
two_types-IsDistinct zero name h e =
    let same : (101 ∷ 97 ∷ 108 ∷ []) ≡ name = cc e in rw (sym same) refl
two_types-IsDistinct (suc zero) name h e = absurd (cc e)
two_types-IsDistinct (suc (suc i)) name h e = absurd (omega arith)

log_register_lem_example :
    IsDistinct (log_register true true no_type two_types (114 ∷ 105 ∷ [])).1
    × Outcome true true two_types
        (114 ∷ 105 ∷ [])
        (log_register true true no_type two_types (114 ∷ 105 ∷ []))
log_register_lem_example =
    log_register_lem true true no_type two_types (114 ∷ 105 ∷ []) two_types-IsDistinct

set_level_lem_example :
    (((2 ≤ 0) ⊎ (log_debug < 3)) × (set_level two_types 0 3 ≡ none))
    ⊎ ((logs' : Logs) × (set_level two_types 0 3 ≡ some logs')
        × (get_level logs' 0 ≡ some 3)
        × ((l : ℕ) → (vlog logs' l 0 ≡ written) ↔ ((l ≤ 8) × (l ≤ 3)))
        × ((l t : ℕ) → t ≢ 0 → vlog logs' l t ≡ vlog two_types l t))
set_level_lem_example = set_level_lem two_types 0 3

-- "lib.ring" has the number 2 from the beginning.
begun :
    log_lookup (log_init true (λ id. true)) (108 ∷ 105 ∷ 98 ∷ 46 ∷ 114 ∷ 105 ∷ 110 ∷ 103 ∷ [])
    ≡ some 2
unfolding log_init log_lookup
begun = refl
