-- ===== src/Ring/Copy.antt =====
-- The macros `ENQUEUE_PTRS` and `DEQUEUE_PTRS` of lib/librte_ring/rte_ring.h: an unrolled loop
-- where the run does not reach the end of the table, two loops where it does.
use rte_demo.Prelude.{
  ℕ, zero, suc, ◌-◌, ◌/◌, ◌^◌, List, get_or, set, bit_and, ltb, ◌==◌, if◌then◌else◌,
}
use rte_demo.Word.{add32}
use rte_demo.Ring.Types.{Ring}

-- `dst[d] = src[s]`
abbrev pub assign : List ℕ → ℕ → List ℕ → ℕ → List ℕ
assign dst d src s = set dst d (get_or src s 0)

-- The array written, the index written next and the index read next: `ring`, `idx`, `i` for an
-- enqueue, `obj_table`, `i`, `idx` for a dequeue.
pub record Cursor : Type 0 where
  pub dst : List ℕ
  pub to : ℕ
  pub from : ℕ

-- `dst[to++] = src[from++]`
unfoldable pub one : List ℕ → Cursor → Cursor
one src c = record { dst = assign c.dst c.to src c.from; to = add32 c.to 1; from = add32 c.from 1 }

-- The body of the unrolled loop, with its `i += 4, idx += 4`.
unfoldable pub four : List ℕ → Cursor → Cursor
four src c = record {
  dst =
      assign
        (assign (assign (assign c.dst c.to src c.from) (add32 c.to 1) src (add32 c.from 1))
          (add32 c.to 2) src (add32 c.from 2))
        (add32 c.to 3) src (add32 c.from 3);
  to = add32 c.to 4;
  from = add32 c.from 4;
}

-- `k` rounds of the unrolled loop.
unfoldable pub fours : ℕ → List ℕ → Cursor → Cursor
fours zero src c = c
fours (suc k) src c = fours k src (four src c)

-- `k` rounds of a plain loop.
unfoldable pub ones : ℕ → List ℕ → Cursor → Cursor
ones zero src c = c
ones (suc k) src c = ones k src (one src c)

-- `switch (n & 0x3)` with its cases falling through.
unfoldable pub rest : ℕ → List ℕ → Cursor → Cursor
rest m src c =
    if m == 3
    then one src (one src (one src c))
    else if m == 2
    then one src (one src c)
    else if m == 1
    then one src c
    else c

-- The branch of both macros that does not reach the end of the ring.
-- The loop runs while `i < (n & ~3)` in steps of four.
unfoldable pub straight : ℕ → List ℕ → Cursor → Cursor
unfolding fours four rest one
straight n src c = rest (bit_and n 3) src (fours (bit_and n (2 ^ 32 - 1 - 3) / 4) src c)

unfoldable pub enqueue_ptrs : Ring → ℕ → List ℕ → ℕ → List ℕ
enqueue_ptrs r prod_head obj_table n =
    let idx = bit_and prod_head r.mask in
    let start : Cursor = record { dst = r.slots; to = idx; from = 0 } in
    let first = ones (r.size - idx) obj_table start in
    let second : Cursor = record { dst = first.dst; to = 0; from = first.from } in
    if ltb (add32 idx n) r.size
    then (straight n obj_table start).dst
    else (ones (n - first.from) obj_table second).dst

-- `obj_table` is the caller's buffer; the result is the buffer after the call.
unfoldable pub dequeue_ptrs : Ring → ℕ → List ℕ → ℕ → List ℕ
dequeue_ptrs r cons_head obj_table n =
    let idx = bit_and cons_head r.mask in
    let start : Cursor = record { dst = obj_table; to = 0; from = idx } in
    let first = ones (r.size - idx) r.slots start in
    let second : Cursor = record { dst = first.dst; to = first.to; from = 0 } in
    if ltb (add32 idx n) r.size
    then (straight n r.slots start).dst
    else (ones (n - first.to) r.slots second).dst
