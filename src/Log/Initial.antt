-- ===== src/Log/Initial.antt =====
-- The table of log types that the program begins with, `rte_log_init` of
-- lib/common/eal_common_log.c.
use rte_demo.Prelude.{ℕ, List, [], ◌∷◌, replicate, Bool, if◌then◌else◌}
use rte_demo.Log.{Logs, log_debug, first_ext_id, no_type, register_all}

-- `logtype_strings`: "lib.eal", "lib.malloc" and so on, as the codes of their characters.
abbrev pub logtype_strings : List (ℕ × List ℕ)
logtype_strings =
    (0, 108 ∷ 105 ∷ 98 ∷ 46 ∷ 101 ∷ 97 ∷ 108 ∷ [])
    ∷ (1, 108 ∷ 105 ∷ 98 ∷ 46 ∷ 109 ∷ 97 ∷ 108 ∷ 108 ∷ 111 ∷ 99 ∷ [])
    ∷ (2, 108 ∷ 105 ∷ 98 ∷ 46 ∷ 114 ∷ 105 ∷ 110 ∷ 103 ∷ [])
    ∷ (3, 108 ∷ 105 ∷ 98 ∷ 46 ∷ 109 ∷ 101 ∷ 109 ∷ 112 ∷ 111 ∷ 111 ∷ 108 ∷ [])
    ∷ (4, 108 ∷ 105 ∷ 98 ∷ 46 ∷ 116 ∷ 105 ∷ 109 ∷ 101 ∷ 114 ∷ [])
    ∷ (5, 112 ∷ 109 ∷ 100 ∷ [])
    ∷ (6, 108 ∷ 105 ∷ 98 ∷ 46 ∷ 104 ∷ 97 ∷ 115 ∷ 104 ∷ [])
    ∷ (7, 108 ∷ 105 ∷ 98 ∷ 46 ∷ 108 ∷ 112 ∷ 109 ∷ [])
    ∷ (8, 108 ∷ 105 ∷ 98 ∷ 46 ∷ 107 ∷ 110 ∷ 105 ∷ [])
    ∷ (9, 108 ∷ 105 ∷ 98 ∷ 46 ∷ 97 ∷ 99 ∷ 108 ∷ [])
    ∷ (10, 108 ∷ 105 ∷ 98 ∷ 46 ∷ 112 ∷ 111 ∷ 119 ∷ 101 ∷ 114 ∷ [])
    ∷ (11, 108 ∷ 105 ∷ 98 ∷ 46 ∷ 109 ∷ 101 ∷ 116 ∷ 101 ∷ 114 ∷ [])
    ∷ (12, 108 ∷ 105 ∷ 98 ∷ 46 ∷ 115 ∷ 99 ∷ 104 ∷ 101 ∷ 100 ∷ [])
    ∷ (13, 108 ∷ 105 ∷ 98 ∷ 46 ∷ 112 ∷ 111 ∷ 114 ∷ 116 ∷ [])
    ∷ (14, 108 ∷ 105 ∷ 98 ∷ 46 ∷ 116 ∷ 97 ∷ 98 ∷ 108 ∷ 101 ∷ [])
    ∷ (15, 108 ∷ 105 ∷ 98 ∷ 46 ∷ 112 ∷ 105 ∷ 112 ∷ 101 ∷ 108 ∷ 105 ∷ 110 ∷ 101 ∷ [])
    ∷ (16, 108 ∷ 105 ∷ 98 ∷ 46 ∷ 109 ∷ 98 ∷ 117 ∷ 102 ∷ [])
    ∷ (17, 108 ∷ 105 ∷ 98 ∷ 46 ∷ 99 ∷ 114 ∷ 121 ∷ 112 ∷ 116 ∷ 111 ∷ 100 ∷ 101 ∷ 118 ∷ [])
    ∷ (18, 108 ∷ 105 ∷ 98 ∷ 46 ∷ 101 ∷ 102 ∷ 100 ∷ [])
    ∷ (19, 108 ∷ 105 ∷ 98 ∷ 46 ∷ 101 ∷ 118 ∷ 101 ∷ 110 ∷ 116 ∷ 100 ∷ 101 ∷ 118 ∷ [])
    ∷ (20, 108 ∷ 105 ∷ 98 ∷ 46 ∷ 103 ∷ 115 ∷ 111 ∷ [])
    ∷ (24, 117 ∷ 115 ∷ 101 ∷ 114 ∷ 49 ∷ [])
    ∷ (25, 117 ∷ 115 ∷ 101 ∷ 114 ∷ 50 ∷ [])
    ∷ (26, 117 ∷ 115 ∷ 101 ∷ 114 ∷ 51 ∷ [])
    ∷ (27, 117 ∷ 115 ∷ 101 ∷ 114 ∷ 52 ∷ [])
    ∷ (28, 117 ∷ 115 ∷ 101 ∷ 114 ∷ 53 ∷ [])
    ∷ (29, 117 ∷ 115 ∷ 101 ∷ 114 ∷ 54 ∷ [])
    ∷ (30, 117 ∷ 115 ∷ 101 ∷ 114 ∷ 55 ∷ [])
    ∷ (31, 117 ∷ 115 ∷ 101 ∷ 114 ∷ 56 ∷ [])
    ∷ []

-- Without memory for the table its length stays 0.
unfoldable pub log_init : (allocated : Bool) → (ℕ → Bool) → Logs
unfolding register_all
log_init allocated copied =
    let types = register_all copied (replicate first_ext_id no_type) logtype_strings in
    if allocated
    then record { level = log_debug; dynamic_types = types }
    else record { level = log_debug; dynamic_types = [] }
