-- ===== src/Ring/Counts.antt =====
-- `rte_ring_count`, `rte_ring_free_count`, `rte_ring_full` and `rte_ring_empty` on a ring at rest.
use native.Mathlib.Nat.{mod-eq_of_lt}
use rte_demo.Prelude.{ℕ, ◌-◌, ◌≡◌, refl, ap, ◌↔◌, true, arith, List, [], ◌∷◌, length, ==_iff}
use rte_demo.Ring.Types.{Ring}
use rte_demo.Ring.Table.{size_small, mask-mod}
use rte_demo.Ring.Invariant.{IsValid, used, contents, length-contents}
use rte_demo.Ring.Api.{ring_count, free_count, full, empty}

ring_count-used : {r : Ring} → IsValid r → ring_count r ≡ used r
unfolding ring_count
ring_count-used {r} v =
    rw
      (
        mask-mod v.shape (used r),
        mod-eq_of_lt {n = used r} {m = r.size} (omega (arith, v.stored, v.spare)),
      )
      (ground (arith, v.stored))

free_count-used : {r : Ring} → IsValid r → free_count r ≡ r.capacity - used r
unfolding free_count
free_count-used {r} v =
    rw (ring_count-used v) (omega (arith, v.stored, v.spare, size_small v.shape))

pub length-nil : (q : List ℕ) → length q ≡ 0 → q ≡ []
length-nil [] h = refl
length-nil (x ∷ q) h = absurd (omega arith)

-- On a valid ring the four functions report the queue that the ring holds: its length, the room
-- left, whether it is as long as the capacity, and whether it is empty.
pub counts_lem :
    {r : Ring}
    → IsValid r
    → (ring_count r ≡ length (contents r))
      × (free_count r ≡ r.capacity - length (contents r))
      × ((full r ≡ true) ↔ (length (contents r) ≡ r.capacity))
      × ((empty r ≡ true) ↔ (contents r ≡ []))
unfolding full empty
counts_lem {r} v = (
  omega (arith, ring_count-used v, length-contents r),
  omega (arith, free_count-used v, length-contents r),
  (
    λ e.
        omega
          (arith, (==_iff (free_count r) 0).0 e, free_count-used v, length-contents r, v.stored),
    λ e. (==_iff (free_count r) 0).1 (omega (arith, free_count-used v, length-contents r)),
  ),
  (
    λ e.
        length-nil (contents r)
          (omega (arith, (==_iff (ring_count r) 0).0 e, ring_count-used v, length-contents r)),
    λ e.
        (==_iff (ring_count r) 0).1
          (omega (arith, ring_count-used v, length-contents r, ap length e)),
  ),
)
