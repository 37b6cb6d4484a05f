-- ===== src/Ring/Transfer.antt =====
-- lib/librte_ring/rte_ring_generic.h (the variant that lib/rte_config.h selects) and the two
-- functions of rte_ring.h that move objects, run with no other thread at work on the ring.
-- `none` stands for a loop that does not end.
use rte_demo.Prelude.{
  ℕ, zero, suc, List, Option, none, some, Bool, true, false, ltb, ◌==◌, if◌then◌else◌, ◌&&◌, not,
}
use rte_demo.Word.{add32, sub32}
use rte_demo.Ring.Types.{Behavior, fixed, variable, HeadTail, Ring, truth}
use rte_demo.Ring.Copy.{enqueue_ptrs, dequeue_ptrs}

-- What a head update returns: the count, and through its pointers the old and the new head and
-- the entries found. `new_head` is left unset where the count is 0.
pub record Moved : Type 0 where
  pub count : ℕ
  pub old_head : ℕ
  pub new_head : ℕ
  pub entries : ℕ

-- `rte_atomic32_cmpset`: the word after the call, and whether it was changed.
unfoldable pub cmpset : ℕ → ℕ → ℕ → ℕ × Bool
cmpset dst exp src = if dst == exp then (src, true) else (dst, false)

-- `if (n > entries) n = (behavior == FIXED) ? 0 : entries;`
unfoldable pub granted : Behavior → ℕ → ℕ → ℕ
granted fixed n entries = if ltb entries n then 0 else n
granted variable n entries = if ltb entries n then entries else n

-- The write of the new head: plain for a single producer or consumer, else by `cmpset`.
unfoldable pub write_head : ℕ → ℕ → ℕ → ℕ → ℕ × Bool
unfolding cmpset
write_head is_single head old new = if truth is_single then (new, true) else cmpset head old new

unfoldable pub move_prod_head : ℕ → Ring → ℕ → ℕ → Behavior → Option (Moved × Ring)
move_prod_head zero r is_sp max behavior = none
move_prod_head (suc fuel) r is_sp max behavior =
    let old = r.prod.head in
    let free_entries = sub32 (add32 r.capacity r.cons.tail) old in
    let n = granted behavior max free_entries in
    let new = add32 old n in
    let (head', success) = write_head is_sp r.prod.head old new in
    let r' : Ring = record r { prod = record (r.prod) { head = head' } } in
    let again = move_prod_head fuel r' is_sp max behavior in
    if n == 0
    then some (record { count = 0; old_head = old; new_head = 0; entries = free_entries }, r)
    else if success
    then some (record { count = n; old_head = old; new_head = new; entries = free_entries }, r')
    else again

unfoldable pub move_cons_head : ℕ → Ring → ℕ → ℕ → Behavior → Option (Moved × Ring)
move_cons_head zero r is_sc max behavior = none
move_cons_head (suc fuel) r is_sc max behavior =
    let old = r.cons.head in
    let entries = sub32 r.prod.tail old in
    let n = granted behavior max entries in
    let new = add32 old n in
    let (head', success) = write_head is_sc r.cons.head old new in
    let r' : Ring = record r { cons = record (r.cons) { head = head' } } in
    let again = move_cons_head fuel r' is_sc max behavior in
    if n == 0
    then some (record { count = 0; old_head = old; new_head = 0; entries = entries }, r)
    else if success
    then some (record { count = n; old_head = old; new_head = new; entries = entries }, r')
    else again

-- The wait ends only if the tail is the old value, since no other thread moves it.
unfoldable pub update_tail : HeadTail → ℕ → ℕ → ℕ → Option HeadTail
update_tail ht old new single =
    if not (truth single) && not (ht.tail == old) then none else some (record ht { tail = new })

-- The count returned, what goes through `free_space` or `available`, and the ring.
pub record Enqueued : Type 0 where
  pub count : ℕ
  pub free_space : ℕ
  pub ring : Ring

pub record Dequeued : Type 0 where
  pub count : ℕ
  pub available : ℕ
  pub objects : List ℕ
  pub ring : Ring

-- The rounds that the loop of a head update is given.
abbrev pub rounds : ℕ
rounds = 1

infixl 5 ◌>>=◌
abbrev pub ◌>>=◌ : {A B : Type 0} → Option A → (A → Option B) → Option B
none >>= f = none
some a >>= f = f a

unfoldable pub do_enqueue : Ring → List ℕ → ℕ → Behavior → ℕ → Option Enqueued
do_enqueue r obj_table n behavior is_sp = do
  (m, r') ← move_prod_head rounds r is_sp n behavior
  let filled = enqueue_ptrs r' m.old_head obj_table m.count
  if m.count == 0
      then some (record { count = 0; free_space = sub32 m.entries 0; ring = r' })
      else do
        prod' ← update_tail r'.prod m.old_head m.new_head is_sp
        some (record {
          count = m.count;
          free_space = sub32 m.entries m.count;
          ring = record r' { prod = prod'; slots = filled };
        })

unfoldable pub do_dequeue : Ring → List ℕ → ℕ → Behavior → ℕ → Option Dequeued
do_dequeue r obj_table n behavior is_sc = do
  (m, r') ← move_cons_head rounds r is_sc n behavior
  let objects = dequeue_ptrs r' m.old_head obj_table m.count
  if m.count == 0
      then some
          (record { count = 0; available = sub32 m.entries 0; objects = obj_table; ring = r' })
      else do
        cons' ← update_tail r'.cons m.old_head m.new_head is_sc
        some (record {
          count = m.count;
          available = sub32 m.entries m.count;
          objects = objects;
          ring = record r' { cons = cons' };
        })
