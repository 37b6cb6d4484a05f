-- ===== src/Ring/Table.antt =====
-- What `ENQUEUE_PTRS` and `DEQUEUE_PTRS` leave in the table and in the caller's buffer: the
-- positions from the head on, taken modulo the size.
use native.Mathlib.Nat.{mod-eq_of_lt, mod-eq-sub-mod, mod-lt, mod-add-mod}
use rte_demo.Prelude.{
  ℕ, ◌+◌, ◌-◌, ◌%◌, ◌^◌, ◌≤◌, ◌<◌, ◌≡◌, sym, ◌∙◌, arith, List, length, get_or, bit_and, ltb,
  if◌then◌else◌,
}
use rte_demo.Word.Bits.{bit_and_ones}
use rte_demo.Word.Align.{two_pow_pos}
use rte_demo.Word.Smear.{two_pow_mono}
use rte_demo.Ring.Types.{Ring}
use rte_demo.Ring.Copy.{enqueue_ptrs, dequeue_ptrs}
use rte_demo.Ring.CopyLaws.{
  copy, ones-copy, straight-copy, length-copy, get_or-copy_inside, get_or-copy_outside,
}

-- The shape of a ring that its table and its masks need.
pub record IsTable (r : Ring) : Type 0 where
  pub order : ℕ
  pub order_lt : order < 32
  pub size_pow : r.size ≡ 2 ^ order
  pub mask_low : r.mask ≡ r.size - 1
  pub table : length r.slots ≡ r.size

-- `head & mask` is the position in the table.
pub mask-mod : {r : Ring} → IsTable r → (head : ℕ) → bit_and head r.mask ≡ head % r.size
mask-mod {r} t head = rw (t.mask_low, t.size_pow) (bit_and_ones t.order head)

pub size_pos : {r : Ring} → IsTable r → 0 < r.size
size_pos t = omega (arith, t.size_pow, two_pow_pos t.order)

pub size_small : {r : Ring} → IsTable r → r.size ≤ 2 ^ 31
size_small t = omega (arith, t.size_pow, two_pow_mono t.order 31 (omega (arith, t.order_lt)))

-- A run of `n` words written from `idx` on, going round at `size`.
written : ℕ → List ℕ → ℕ → List ℕ → ℕ → List ℕ
written size slots idx words n =
    if ltb (idx + n) size
    then copy n slots idx words 0
    else copy (n - (size - idx)) (copy (size - idx) slots idx words 0) 0 words (size - idx)

-- A run of `n` words read from `idx` on into the front of a buffer.
gathered : ℕ → List ℕ → ℕ → List ℕ → ℕ → List ℕ
gathered size slots idx buffer n =
    if ltb (idx + n) size
    then copy n buffer 0 slots idx
    else copy (n - (size - idx)) (copy (size - idx) buffer 0 slots idx) (size - idx) slots 0

enqueue_ptrs-written :
    {r : Ring} (t : IsTable r) (head : ℕ) (words : List ℕ) (n : ℕ)
    → n ≤ r.size
    → enqueue_ptrs r head words n ≡ written r.size r.slots (head % r.size) words n
unfolding enqueue_ptrs written
enqueue_ptrs-written {r} t head words n h = rw (mask-mod t head) (
    ground (
      arith,
      size_small t,
      mod-lt head (size_pos t),
      straight-copy n words r.slots (head % r.size) 0,
      ones-copy (r.size - head % r.size) words r.slots (head % r.size) 0,
      ones-copy (n - (r.size - head % r.size)) words
          (copy (r.size - head % r.size) r.slots (head % r.size) words 0) 0
          (r.size - head % r.size),
    ))

dequeue_ptrs-gathered :
    {r : Ring} (t : IsTable r) (head : ℕ) (buffer : List ℕ) (n : ℕ)
    → n ≤ r.size
    → dequeue_ptrs r head buffer n ≡ gathered r.size r.slots (head % r.size) buffer n
unfolding dequeue_ptrs gathered
dequeue_ptrs-gathered {r} t head buffer n h = rw (mask-mod t head) (
    ground (
      arith,
      size_small t,
      mod-lt head (size_pos t),
      straight-copy n r.slots buffer 0 (head % r.size),
      ones-copy (r.size - head % r.size) r.slots buffer 0 (head % r.size),
      ones-copy (n - (r.size - head % r.size)) r.slots
          (copy (r.size - head % r.size) buffer 0 r.slots (head % r.size)) (r.size - head % r.size)
          0,
    ))

-- One trip round the table.
pub round_once :
    (size idx i : ℕ)
    → idx < size
    → i ≤ size
    → (idx + i) % size ≡ (if ltb (idx + i) size then idx + i else idx + i - size)
round_once size idx i p q = ground (
  arith,
  mod-eq_of_lt {n = idx + i} {m = size},
  mod-eq-sub-mod {n = idx + i} {m = size},
  mod-eq_of_lt {n = idx + i - size} {m = size},
)

module _ (size : ℕ) (slots : List ℕ) (idx n : ℕ) (in_table : idx < size) (short : n ≤ size) where
  module _ (words : List ℕ) where
    length-written : length (written size slots idx words n) ≡ length slots
    unfolding written
    length-written = ground (
      arith,
      length-copy n slots idx words 0,
      length-copy (size - idx) slots idx words 0,
      length-copy (n - (size - idx)) (copy (size - idx) slots idx words 0) 0 words (size - idx),
    )

    written_outside :
        (j : ℕ)
        → n ≤ j
        → j < size
        → get_or (written size slots idx words n) ((idx + j) % size) 0
          ≡ get_or slots ((idx + j) % size) 0
    unfolding written
    written_outside j p q = rw (round_once size idx j in_table (omega arith)) (
        ground (
          arith,
          get_or-copy_outside n slots idx words 0 (idx + j),
          get_or-copy_outside n slots idx words 0 (idx + j - size),
          get_or-copy_outside (size - idx) slots idx words 0 (idx + j - size),
          get_or-copy_outside (n - (size - idx)) (copy (size - idx) slots idx words 0) 0 words
              (size - idx) (idx + j - size),
        ))

    written_inside :
        length slots ≡ size
        → (i : ℕ) → i < n
        → get_or (written size slots idx words n) ((idx + i) % size) 0 ≡ get_or words i 0
    unfolding written
    written_inside full i p = rw (round_once size idx i in_table (omega arith)) (
        ground (
          arith,
          get_or-copy_inside n slots idx words 0 i,
          get_or-copy_inside (size - idx) slots idx words 0 i,
          get_or-copy_outside (n - (size - idx)) (copy (size - idx) slots idx words 0) 0 words
              (size - idx) (idx + i),
          length-copy (size - idx) slots idx words 0,
          get_or-copy_inside (n - (size - idx)) (copy (size - idx) slots idx words 0) 0 words
              (size - idx) (i - (size - idx)),
        ))

  module _ (buffer : List ℕ) where
    length-gathered : length (gathered size slots idx buffer n) ≡ length buffer
    unfolding gathered
    length-gathered = ground (
      arith,
      length-copy n buffer 0 slots idx,
      length-copy (size - idx) buffer 0 slots idx,
      length-copy (n - (size - idx)) (copy (size - idx) buffer 0 slots idx) (size - idx) slots 0,
    )

    gathered_inside :
        n ≤ length buffer
        → (i : ℕ) → i < n
        → get_or (gathered size slots idx buffer n) i 0 ≡ get_or slots ((idx + i) % size) 0
    unfolding gathered
    gathered_inside room i p = rw (round_once size idx i in_table (omega arith)) (
        ground (
          arith,
          get_or-copy_inside n buffer 0 slots idx i,
          get_or-copy_inside (size - idx) buffer 0 slots idx i,
          get_or-copy_outside (n - (size - idx)) (copy (size - idx) buffer 0 slots idx) (size - idx)
              slots 0 i,
          length-copy (size - idx) buffer 0 slots idx,
          get_or-copy_inside (n - (size - idx)) (copy (size - idx) buffer 0 slots idx) (size - idx)
              slots 0 (i - (size - idx)),
        ))

    gathered_outside :
        (i : ℕ) → n ≤ i → get_or (gathered size slots idx buffer n) i 0 ≡ get_or buffer i 0
    unfolding gathered
    gathered_outside i p = ground (
      arith,
      get_or-copy_outside n buffer 0 slots idx i,
      get_or-copy_outside (size - idx) buffer 0 slots idx i,
      get_or-copy_outside (n - (size - idx)) (copy (size - idx) buffer 0 slots idx) (size - idx)
          slots 0 i,
    )

-- On a ring whose size is a power of two and whose table has that length, `ENQUEUE_PTRS` with at
-- most `size` objects writes object `i` at position `head + i` modulo the size, keeps the other
-- positions, and does not change the table's length.
pub enqueue_ptrs_lem :
    {r : Ring} (t : IsTable r) (head : ℕ) (words : List ℕ) (n : ℕ)
    → n ≤ r.size
    → (length (enqueue_ptrs r head words n) ≡ r.size)
      × ((i : ℕ)
          → i < n
          → get_or (enqueue_ptrs r head words n) ((head + i) % r.size) 0 ≡ get_or words i 0)
      × ((j : ℕ)
          → n ≤ j
          → j < r.size
          → get_or (enqueue_ptrs r head words n) ((head + j) % r.size) 0
            ≡ get_or r.slots ((head + j) % r.size) 0)
enqueue_ptrs_lem {r} t head words n h = rw (enqueue_ptrs-written t head words n h) (
  length-written r.size r.slots (head % r.size) n below h words ∙ t.table,
  λ i p.
      rw (← mod-add-mod head r.size i)
        (written_inside r.size r.slots (head % r.size) n below h words t.table i p),
  λ j p q.
      rw (← mod-add-mod head r.size j)
        (written_outside r.size r.slots (head % r.size) n below h words j p q),
)
  where
    below : head % r.size < r.size
    below = mod-lt head (size_pos t)

-- On such a ring `DEQUEUE_PTRS` fills the first `n` places of a buffer that has room for them with
-- the objects at positions `head + i` modulo the size, and keeps the rest of the buffer.
pub dequeue_ptrs_lem :
    {r : Ring} (t : IsTable r) (head : ℕ) (buffer : List ℕ) (n : ℕ)
    → n ≤ r.size
    → n ≤ length buffer
    → (length (dequeue_ptrs r head buffer n) ≡ length buffer)
      × ((i : ℕ)
          → i < n
          → get_or (dequeue_ptrs r head buffer n) i 0 ≡ get_or r.slots ((head + i) % r.size) 0)
      × ((j : ℕ) → n ≤ j → get_or (dequeue_ptrs r head buffer n) j 0 ≡ get_or buffer j 0)
dequeue_ptrs_lem {r} t head buffer n h room = rw (dequeue_ptrs-gathered t head buffer n h) (
  length-gathered r.size r.slots (head % r.size) n below h buffer,
  λ i p.
      rw (← mod-add-mod head r.size i)
        (gathered_inside r.size r.slots (head % r.size) n below h buffer room i p),
  λ j p. gathered_outside r.size r.slots (head % r.size) n below h buffer j p,
)
  where
    below : head % r.size < r.size
    below = mod-lt head (size_pos t)

-- After `ENQUEUE_PTRS` the table has its length, and the slot `i` places behind the head holds the
-- `i`-th object for `i < n` and what it held before for the others.
pub enqueue_ptrs_slot :
    {r : Ring} (t : IsTable r) (head : ℕ) (words : List ℕ) (n i : ℕ)
    → n ≤ r.size
    → i < r.size
    → (length (enqueue_ptrs r head words n) ≡ length r.slots)
      × (get_or (enqueue_ptrs r head words n) ((head + i) % r.size) 0
          ≡ (if ltb i n then get_or words i 0 else get_or r.slots ((head + i) % r.size) 0))
enqueue_ptrs_slot {r} t head words n i h p =
    let (full, inside, outside) = enqueue_ptrs_lem t head words n h in
    (full ∙ sym t.table, ground (arith, inside i, outside i))

-- After `DEQUEUE_PTRS` the caller's buffer has its length, and its entry `i` is the object `i`
-- places behind the head for `i < n` and unchanged for the others.
pub dequeue_ptrs_entry :
    {r : Ring} (t : IsTable r) (head : ℕ) (buffer : List ℕ) (n i : ℕ)
    → n ≤ r.size
    → n ≤ length buffer
    → (length (dequeue_ptrs r head buffer n) ≡ length buffer)
      × (get_or (dequeue_ptrs r head buffer n) i 0
          ≡ (if ltb i n then get_or r.slots ((head + i) % r.size) 0 else get_or buffer i 0))
dequeue_ptrs_entry {r} t head buffer n i h room =
    let (full, inside, outside) = dequeue_ptrs_lem t head buffer n h room in
    (full, ground (arith, inside i, outside i))
