-- ===== src/Ring/Concurrent.antt =====
-- The ring with several producers and consumers at work: the multi-producer and multi-consumer paths
-- of lib/librte_ring/rte_ring_generic.h and rte_ring.h, one access of the shared memory at a time.
-- The two heads and the two tails are kept as totals; the word that the memory holds is the total
-- modulo 2 ^ 32, and the program only ever sees words.
use rte_demo.Prelude.{
  ℕ, zero, suc, ◌+◌, ◌-◌, ◌%◌, ◌^◌, ◌<◌, ◌≡◌, List, [], ◌∷◌, ◌++◌, length, get_or, bit_and, ltb,
  ◌==◌, Bool, if◌then◌else◌,
}
use rte_demo.Word.{add32, sub32}
use rte_demo.Ring.Types.{Behavior}
use rte_demo.Ring.Transfer.{cmpset, granted}
use rte_demo.Malloc.Types.{update}
pub mod Ranges
pub mod Owners
pub mod Acts
pub mod Swaps
pub mod Copies
pub mod Order
pub mod Reached
mod Tests

abbrev pub word : ℕ → ℕ
word x = x % 2 ^ 32

-- What the threads share. `sent` is no memory of the program: it is the object that was put at each
-- place of the sequence of all objects.
pub record Shared : Type 0 where
  pub prod_head : ℕ
  pub prod_tail : ℕ
  pub cons_head : ℕ
  pub cons_tail : ℕ
  pub slots : ℕ → ℕ
  pub sent : ℕ → ℕ

-- Where a thread stands. A producer that has read `prod.head` remembers it (`old`), then has read
-- `cons.tail` (`seen`) and goes for `n` places; then the places are its own and it has written `i`.
-- The same with a consumer, which has read the objects `got`.
pub data Phase : Type 0 where
  idle : Phase
  p_start : List ℕ → Behavior → Phase
  p_head : List ℕ → Behavior → (old : ℕ) → Phase
  p_room : List ℕ → Behavior → (old seen n : ℕ) → Phase
  p_copy : List ℕ → (old n i : ℕ) → Phase
  c_start : (max : ℕ) → Behavior → Phase
  c_head : (max : ℕ) → Behavior → (old : ℕ) → Phase
  c_room : (max : ℕ) → Behavior → (old seen n : ℕ) → Phase
  c_copy : (old n : ℕ) → List ℕ → Phase

-- A thread between its read of the head and its swap is not overtaken by 2 ^ 32 objects, after
-- which it could not tell the head from the one it has read.
abbrev pub InTime : Shared → Phase → Type 0
InTime s (p_room objs b old seen n) = s.prod_head < old + 2 ^ 32
InTime s (c_room max b old seen n) = s.cons_head < old + 2 ^ 32
InTime s _ = Unit

-- The shared memory and the threads, any number of them.
pub record System : Type 0 where
  pub shared : Shared
  pub threads : ℕ → Phase

-- An empty ring whose indices stand at `start`, and no thread at work.
abbrev pub fresh : (start : ℕ) → (ℕ → ℕ) → System
fresh start slots = record {
  shared = record {
    prod_head = start;
    prod_tail = start;
    cons_head = start;
    cons_tail = start;
    slots = slots;
    sent = λ i. 0;
  };
  threads = λ t. idle;
}

-- `head & r->mask` of a ring with `2 ^ order` slots.
abbrev pub slot : (order x : ℕ) → ℕ
slot order x = bit_and (word x) (2 ^ order - 1)

-- `free_entries` and `entries`
abbrev pub free_entries : (capacity cons_tail old : ℕ) → ℕ
free_entries capacity cons_tail old = sub32 (add32 capacity (word cons_tail)) (word old)

abbrev pub entries : (prod_tail old : ℕ) → ℕ
entries prod_tail old = sub32 (word prod_tail) (word old)

abbrev pub swapped : (head old n : ℕ) → Bool
swapped head old n = (cmpset (word head) (word old) (add32 (word old) n)).1

-- One object is copied, or the tail is tested and, if all before are done, moved: only the owner of
-- the tail passes the test, and no other thread then writes the tail before it.
unfoldable pub produce : (order : ℕ) → Shared → List ℕ → (old n i : ℕ) → Shared × Phase
produce order s objs old n i =
    let obj = get_or objs i 0 in
    if ltb i n
    then (
      record s {
        slots = update s.slots (slot order (old + i)) obj;
        sent = update s.sent (old + i) obj;
      },
      p_copy objs old n (i + 1),
    )
    else if word s.prod_tail == word old
    then (record s { prod_tail = old + n }, idle)
    else (s, p_copy objs old n i)

unfoldable pub consume : (order : ℕ) → Shared → (old n : ℕ) → List ℕ → Shared × Phase
consume order s old n got =
    if ltb (length got) n
    then (s, c_copy old n (got ++ (s.slots (slot order (old + length got)) ∷ [])))
    else if word s.cons_tail == word old
    then (record s { cons_tail = old + n }, idle)
    else (s, c_copy old n got)

module _ (order capacity : ℕ) where
  -- The next access of a thread: the shared memory and where the thread stands after it.
  unfoldable pub act : Shared → Phase → Shared × Phase
  unfolding produce consume cmpset
  act s idle = (s, idle)
  act s (p_start objs b) = (s, p_head objs b s.prod_head)
  act s (p_head objs b old) =
      let n = granted b (length objs) (free_entries capacity s.cons_tail old) in
      (s, if n == 0 then idle else p_room objs b old s.cons_tail n)
  act s (p_room objs b old seen n) =
      if swapped s.prod_head old n
      then (record s { prod_head = s.prod_head + n }, p_copy objs old n 0)
      else (s, p_start objs b)
  act s (p_copy objs old n i) = produce order s objs old n i
  act s (c_start max b) = (s, c_head max b s.cons_head)
  act s (c_head max b old) =
      let n = granted b max (entries s.prod_tail old) in
      (s, if n == 0 then idle else c_room max b old s.prod_tail n)
  act s (c_room max b old seen n) =
      if swapped s.cons_head old n
      then (record s { cons_head = s.cons_head + n }, c_copy old n [])
      else (s, c_start max b)
  act s (c_copy old n got) = consume order s old n got

  pub data Step (w : System) : System → Type 0 where
    enqueue :
        (t : ℕ) (objs : List ℕ) (b : Behavior)
        → w.threads t ≡ idle
        → Step w (record w { threads = update w.threads t (p_start objs b) })
    dequeue :
        (t max : ℕ) (b : Behavior)
        → w.threads t ≡ idle
        → Step w (record w { threads = update w.threads t (c_start max b) })
    access :
        (t : ℕ)
        → InTime w.shared (w.threads t)
        → Step w (record {
          shared = (act w.shared (w.threads t)).0;
          threads = update w.threads t (act w.shared (w.threads t)).1;
        })

  pub data Reach (start : ℕ) (slots : ℕ → ℕ) : System → Type 0 where
    begin : Reach start slots (fresh start slots)
    later : {v w : System} → Reach start slots v → Step v w → Reach start slots w
