-- ===== src/Ring/Heads.antt =====
-- The head updates of lib/librte_ring/rte_ring_generic.h take one round where no other thread
-- moves the head.
use rte_demo.Prelude.{ℕ, suc, ◌≡◌, refl, arith, some, true, ◌==◌, if◌then◌else◌}
use rte_demo.Word.{add32, sub32}
use rte_demo.Ring.Types.{Behavior, fixed, variable, HeadTail, Ring}
use rte_demo.Ring.Queue.{moved}
use rte_demo.Ring.Transfer.{
  Moved, cmpset, granted, write_head, move_prod_head, move_cons_head, update_tail,
}

write_head_same : (is_single head new : ℕ) → write_head is_single head head new ≡ (new, true)
unfolding write_head cmpset
write_head_same is_single head new = ground arith

-- What one round returns and leaves.
abbrev pub prod_round : Ring → ℕ → Behavior → Moved × Ring
prod_round r n b =
    let free_entries = sub32 (add32 r.capacity r.cons.tail) r.prod.head in
    let m = granted b n free_entries in
    let new = add32 r.prod.head m in
    if m == 0
    then (record { count = 0; old_head = r.prod.head; new_head = 0; entries = free_entries }, r)
    else (
      record { count = m; old_head = r.prod.head; new_head = new; entries = free_entries },
      record r { prod = record (r.prod) { head = new } },
    )

abbrev pub cons_round : Ring → ℕ → Behavior → Moved × Ring
cons_round r n b =
    let entries = sub32 r.prod.tail r.cons.head in
    let m = granted b n entries in
    let new = add32 r.cons.head m in
    if m == 0
    then (record { count = 0; old_head = r.cons.head; new_head = 0; entries = entries }, r)
    else (
      record { count = m; old_head = r.cons.head; new_head = new; entries = entries },
      record r { cons = record (r.cons) { head = new } },
    )

-- With any fuel the producer's loop ends in its first round, for single and multiple producers.
pub move_prod_head_lem :
    (fuel : ℕ) (r : Ring) (is_sp n : ℕ) (b : Behavior)
    → move_prod_head (suc fuel) r is_sp n b ≡ some (prod_round r n b)
unfolding move_prod_head
move_prod_head_lem fuel r is_sp n b =
    rw
      (write_head_same is_sp r.prod.head
        (add32 r.prod.head (granted b n (sub32 (add32 r.capacity r.cons.tail) r.prod.head))))
      (ground arith)

-- With any fuel the consumer's loop ends in its first round, for single and multiple consumers.
pub move_cons_head_lem :
    (fuel : ℕ) (r : Ring) (is_sc n : ℕ) (b : Behavior)
    → move_cons_head (suc fuel) r is_sc n b ≡ some (cons_round r n b)
unfolding move_cons_head
move_cons_head_lem fuel r is_sc n b =
    rw
      (write_head_same is_sc r.cons.head
        (add32 r.cons.head (granted b n (sub32 r.prod.tail r.cons.head))))
      (ground arith)

-- The wait for earlier transfers is over where the tail is the old head.
pub update_tail_ready :
    (ht : HeadTail) (old new single : ℕ)
    → ht.tail ≡ old
    → update_tail ht old new single ≡ some (record ht { tail = new })
unfolding update_tail
update_tail_ready ht old new single h = ground arith

pub granted-moved : (b : Behavior) (n found : ℕ) → granted b n found ≡ moved b n found
unfolding granted
granted-moved fixed n found = refl
granted-moved variable n found = refl
