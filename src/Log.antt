-- ===== src/Log.antt =====
-- The types of log messages and their levels: lib/common/eal_common_log.c. A message is written when
-- its level passes; its text and the stream are left out.
use rte_demo.Prelude.{
  ℕ, suc, ◌+◌, List, [], ◌∷◌, ◌++◌, length, get_or, set, replicate, Option, none, some, Bool, true,
  false, ltb, leb, same_name, if◌then◌else◌,
}
pub mod Initial
pub mod Registered
pub mod Levels
mod Tests

-- `RTE_LOG_INFO`, `RTE_LOG_DEBUG`, `RTE_LOGTYPE_FIRST_EXT_ID`
abbrev pub log_info : ℕ
log_info = 7

abbrev pub log_debug : ℕ
log_debug = 8

abbrev pub first_ext_id : ℕ
first_ext_id = 32

-- `struct rte_log_dynamic_type`
pub record LogType : Type 0 where
  pub name : Option (List ℕ)
  pub loglevel : ℕ

-- What `calloc` leaves of an entry.
abbrev pub no_type : LogType
no_type = record { name = none; loglevel = 0 }

-- `struct rte_logs`: the length of the table is that of the list.
pub record Logs : Type 0 where
  pub level : ℕ
  pub dynamic_types : List LogType

abbrev pub set_global_level : Logs → ℕ → Logs
set_global_level logs level = record logs { level = level }

-- `none` stands for -1.
unfoldable pub get_level : Logs → (type_id : ℕ) → Option ℕ
get_level logs type_id =
    if leb (length logs.dynamic_types) type_id
    then none
    else some (get_or logs.dynamic_types type_id no_type).loglevel

unfoldable pub set_level : Logs → (type_id level : ℕ) → Option Logs
set_level logs type_id level =
    let t = get_or logs.dynamic_types type_id no_type in
    let t' : LogType = record t { loglevel = level } in
    if leb (length logs.dynamic_types) type_id
    then none
    else if ltb log_debug level
    then none
    else some (record logs { dynamic_types = set logs.dynamic_types type_id t' })

-- The loop of `rte_log_set_level_regexp`; `matches` is the pattern that `regcomp` makes.
abbrev pub matched : (List ℕ → Bool) → Option (List ℕ) → Bool
matched matches none = false
matched matches (some name) = matches name

unfoldable pub set_matching : (List ℕ → Bool) → (level : ℕ) → List LogType → List LogType
set_matching matches level [] = []
set_matching matches level (t ∷ types) =
    let t' : LogType = record t { loglevel = level } in
    (if matched matches t.name then t' else t) ∷ set_matching matches level types

abbrev pub set_compiled : Logs → (level : ℕ) → Option (List ℕ → Bool) → Option Logs
set_compiled logs level none = none
set_compiled logs level (some matches) =
    some (record logs { dynamic_types = set_matching matches level logs.dynamic_types })

unfoldable pub set_level_regexp :
    (List ℕ → Option (List ℕ → Bool)) → Logs → (pattern : List ℕ) → (level : ℕ) → Option Logs
unfolding set_matching
set_level_regexp regcomp logs pattern level =
    if ltb log_debug level then none else set_compiled logs level (regcomp pattern)

-- The loop of `rte_log_lookup`, from the index `i` on.
unfoldable pub lookup_from : (name : List ℕ) → (i : ℕ) → List LogType → Option ℕ
lookup_from name i [] = none
lookup_from name i (t ∷ types) =
    let rest = lookup_from name (i + 1) types in
    if matched (same_name name) t.name then some i else rest

unfoldable pub log_lookup : Logs → List ℕ → Option ℕ
unfolding lookup_from
log_lookup logs name = lookup_from name 0 logs.dynamic_types

-- `__rte_log_register`; `copied` tells whether `strdup` gives memory.
unfoldable pub register_type :
    (copied : Bool) → List LogType → List ℕ → (id : ℕ) → Option (List LogType)
register_type copied types name id =
    let t : LogType = record { name = some name; loglevel = log_info } in
    if copied then some (set types id t) else none

abbrev pub registered : Logs → (id : ℕ) → Option (List LogType) → Option ℕ × Logs
registered logs id none = (none, logs)
registered logs id (some types) = (some id, record logs { dynamic_types = types })

-- `rte_log_register` after the lookup; `none` stands for -ENOMEM. `grown` tells whether `realloc` gives
-- memory, and `behind` is what then stands behind the table.
unfoldable pub register_new :
    (grown copied : Bool) → LogType → Logs → List ℕ → Option ℕ → Option ℕ × Logs
unfolding register_type
register_new grown copied behind logs name (some id) = (some id, logs)
register_new grown copied behind logs name none =
    let len = length logs.dynamic_types in
    let grown_types = logs.dynamic_types ++ (behind ∷ []) in
    if grown then registered logs len (register_type copied grown_types name len) else (none, logs)

unfoldable pub log_register : (grown copied : Bool) → LogType → Logs → List ℕ → Option ℕ × Logs
unfolding register_new log_lookup
log_register grown copied behind logs name =
    register_new grown copied behind logs name (log_lookup logs name)

-- The loop of `rte_log_init`; a name that cannot be copied is left out.
abbrev pub or_as_before : List LogType → Option (List LogType) → List LogType
or_as_before types none = types
or_as_before types (some types') = types'

unfoldable pub register_all : (ℕ → Bool) → List LogType → List (ℕ × List ℕ) → List LogType
unfolding register_type
register_all copied types [] = types
register_all copied types ((id, name) ∷ logtypes) =
    register_all copied (or_as_before types (register_type (copied id) types name id)) logtypes

-- `rte_vlog`: what becomes of a message.
pub data Message : Type 0 where
  quiet : Message
  unknown : Message
  written : Message

unfoldable pub vlog : Logs → (level logtype : ℕ) → Message
vlog logs level logtype =
    if ltb logs.level level
    then quiet
    else if leb (length logs.dynamic_types) logtype
    then unknown
    else if ltb (get_or logs.dynamic_types logtype no_type).loglevel level
    then quiet
    else written
