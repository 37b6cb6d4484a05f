-- ===== src/Word/Tests.antt =====
-- Runs of the word operations at concrete inputs.
use rte_demo.Prelude.{ℕ, ◌*◌, ◌^◌, ◌≤◌, ◌<◌, ◌≡◌, ◌↔◌, arith, true}
use rte_demo.Word.{is_power_of_2, align32pow2}
use rte_demo.Word.Pow2.{IsPow2, is_power_of_2-IsPow2}
use rte_demo.Word.Smear.{align32pow2_least}

is_power_of_2-IsPow2_example : (is_power_of_2 96 ≡ true) ↔ IsPow2 96
is_power_of_2-IsPow2_example = is_power_of_2-IsPow2 96 (omega arith)

align32pow2_least_example : (k : ℕ) × (align32pow2 100 ≡ 2 ^ k) × (100 ≤ 2 ^ k) × (2 ^ k < 2 * 100)
align32pow2_least_example = align32pow2_least 100 (omega arith) (omega arith)
