-- ===== src/Malloc/Fit.antt =====
-- `elem_start_pt` and `malloc_elem_can_hold` of lib/common/malloc_elem.c.
use rte_demo.Prelude.{ℕ, ◌-◌, ◌^◌, bit_and, ltb, ◌==◌, not, Bool, if◌then◌else◌}
use rte_demo.Word.{add64, sub64, align_floor}
use rte_demo.Malloc.Types.{header_len}

-- `~(bound - 1)` on a `size_t`
abbrev pub bound_mask : ℕ → ℕ
bound_mask bound = 2 ^ 64 - 1 - sub64 bound 1

-- Whether the block from `start` to `end` stays between two multiples of the bound.
abbrev pub together : ℕ → ℕ → ℕ → Bool
together bound start end =
    bit_and start (bound_mask bound) == bit_and (sub64 end 1) (bound_mask bound)

-- The comparison of the new start with the element's.
abbrev pub not_before : ℕ → ℕ → ℕ
not_before elem new_data_start =
    let new_elem_start = sub64 new_data_start header_len in
    if ltb new_elem_start elem then 0 else new_elem_start

-- 0 is NULL; `elem_size` is `elem->size`.
unfoldable pub elem_start_pt : (elem elem_size size align bound : ℕ) → ℕ
elem_start_pt elem elem_size size align bound =
    let end_pt = add64 elem elem_size in
    let new_data_start = align_floor 64 32 (sub64 end_pt size) align in
    let bound_pt = align_floor 64 64 end_pt bound in
    let bound_start = align_floor 64 32 (sub64 bound_pt size) align in
    if together bound new_data_start end_pt
    then not_before elem new_data_start
    else if together bound bound_start (add64 bound_start size)
    then not_before elem bound_start
    else 0

unfoldable pub can_hold : (elem elem_size size align bound : ℕ) → Bool
can_hold elem elem_size size align bound = not (elem_start_pt elem elem_size size align bound == 0)
