-- ===== src/Ring/Invariant.antt =====
-- The representation invariant of a ring that no call is at work on, and the queue it stands for.
use Prim.Native.Nat.{◌∣◌}
use mathlib.Core.Path.{subst}
use native.Mathlib.Nat.{mod-mod_of_dvd, mod-add-mod, dvd-mul_left}
use rte_demo.Prelude.{ℕ, ◌+◌, ◌-◌, ◌%◌, ◌^◌, ◌≤◌, ◌<◌, ◌≡◌, sym, ap, ◌∙◌, arith, length}
use rte_demo.Word.{sub32}
use rte_demo.Word.Smear.{two_pow_split}
use rte_demo.Ring.Types.{Ring}
use rte_demo.Ring.Window.{items, length-items}
use rte_demo.Ring.Table.{IsTable}
use rte_demo.Ring.Queue.{Queue}

-- The number of objects between the two tails.
abbrev pub used : Ring → ℕ
used r = sub32 r.prod.tail r.cons.tail

pub record IsValid (r : Ring) : Type 0 where
  pub shape : IsTable r
  pub spare : r.capacity < r.size
  pub prod_word : r.prod.tail < 2 ^ 32
  pub cons_word : r.cons.tail < 2 ^ 32
  pub prod_quiet : r.prod.head ≡ r.prod.tail
  pub cons_quiet : r.cons.head ≡ r.cons.tail
  pub stored : used r ≤ r.capacity

abbrev pub contents : Ring → Queue
contents r = items r.slots r.size r.cons.tail (used r)

pub length-contents : (r : Ring) → length (contents r) ≡ used r
length-contents r = length-items r.slots r.size r.cons.tail (used r)

-- An index that wrapped at `2 ^ 32` gives the same position in the table.
pub mod32-mod-size : {r : Ring} → IsTable r → (x : ℕ) → x % 2 ^ 32 % r.size ≡ x % r.size
mod32-mod-size {r} t x = rw t.size_pow (mod-mod_of_dvd (2 ^ t.order) x divides)
  where
    divides : 2 ^ t.order ∣ 2 ^ 32
    divides =
        subst (λ (m : ℕ). 2 ^ t.order ∣ m)
          (sym (two_pow_split 32 t.order (omega (arith, t.order_lt))))
          (dvd-mul_left (2 ^ t.order) (2 ^ (32 - t.order)))

-- The producer's tail is the position behind the objects held.
pub prod_position :
    {r : Ring}
    → IsValid r
    → (i : ℕ) → (r.prod.tail + i) % r.size ≡ (r.cons.tail + used r + i) % r.size
prod_position {r} v i =
    sym (mod-add-mod r.prod.tail r.size i)
    ∙ ap (λ (t : ℕ). (t + i) % r.size) behind
    ∙ mod-add-mod (r.cons.tail + used r) r.size i
  where
    behind : r.prod.tail % r.size ≡ (r.cons.tail + used r) % r.size
    behind =
        ap (λ (t : ℕ). t % r.size) (omega (arith, v.prod_word, v.cons_word))
        ∙ mod32-mod-size v.shape (r.cons.tail + used r)
