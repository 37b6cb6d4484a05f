-- ===== src/Ring/Fresh.antt =====
-- What `rte_ring_init` makes of its arguments.
use native.Mathlib.Nat.{pow-suc}
use rte_demo.Prelude.{
  ℕ, suc, ◌+◌, ◌-◌, ◌*◌, ◌^◌, ◌≤◌, ◌<◌, ◌≡◌, refl, ◌⊎◌, inl, inr, arith, true, false, List, [],
  length, leb, if◌then◌else◌,
}
use rte_demo.Word.{sub32, add32, align32pow2}
use rte_demo.Word.Pow2.{bit_and-pow2}
use rte_demo.Word.Align.{two_pow_pos}
use rte_demo.Word.Bits.{bit_and_comm}
use rte_demo.Word.Smear.{align32pow2_least, two_pow_bound, two_pow_mono}
use rte_demo.Ring.Types.{einval, enametoolong, Result, ok, err, Ring}
use rte_demo.Ring.Window.{items_zero}
use rte_demo.Ring.Invariant.{IsValid, contents}
use rte_demo.Ring.Setup.{
  exact_sz, has, name_size, poweroftwo, rejected, named, flagged, sized, init,
}

-- The sizes that the function is meant to take, and the capacity that it is meant to give.
abbrev pub IsSize : ℕ → ℕ → Type 0
IsSize count flags =
    ((has flags exact_sz ≡ true) × (count < 2 ^ 31))
    ⊎ ((has flags exact_sz ≡ false) × (k : ℕ) × (k < 31) × (count ≡ 2 ^ k))

abbrev pub table_size : ℕ → ℕ → ℕ
table_size count flags = if has flags exact_sz then align32pow2 (add32 count 1) else count

abbrev pub usable : ℕ → ℕ → ℕ
usable count flags = if has flags exact_sz then count else count - 1

-- A ring at rest with both indices at 0.
sized-IsValid :
    (r : Ring) (k capacity : ℕ)
    → k < 32
    → capacity < 2 ^ k
    → length r.slots ≡ 2 ^ k
    → IsValid (sized r (2 ^ k) (2 ^ k - 1) capacity)
      × (contents (sized r (2 ^ k) (2 ^ k - 1) capacity) ≡ [])
unfolding sized
sized-IsValid r k capacity h spare full = (
  record {
    shape = record { order = k; order_lt = h; size_pow = refl; mask_low = refl; table = full };
    spare = spare;
    prod_word = omega arith;
    cons_word = omega arith;
    prod_quiet = refl;
    cons_quiet = refl;
    stored = omega arith;
  },
  items_zero r.slots (2 ^ k) 0,
)

sub32_pred : (x : ℕ) → 0 < x → x ≤ 2 ^ 31 → sub32 x 1 ≡ x - 1
sub32_pred x p h = omega arith

poweroftwo-pow : (k : ℕ) → k < 32 → poweroftwo (2 ^ k) ≡ true
unfolding poweroftwo
poweroftwo-pow k h = rw (
  sub32_pred (2 ^ k) (two_pow_pos k) (two_pow_mono k 31 (omega arith)),
  bit_and_comm (2 ^ k - 1) (2 ^ k),
  bit_and-pow2 k,
)

pub accepted : (k : ℕ) → k < 31 → rejected (2 ^ k) ≡ false
unfolding rejected
accepted k h =
    rw (poweroftwo-pow k (omega arith)) (ground (arith, pow-suc 2 k, two_pow_mono (suc k) 31 h))

-- The ring before its indices and sizes are set.
abbrev pub ready : Ring → List ℕ → ℕ → Ring
ready r name flags = flagged (named r name) flags

slots-ready : (r : Ring) (name : List ℕ) (flags : ℕ) → (ready r name flags).slots ≡ r.slots
unfolding named flagged
slots-ready r name flags = refl

capacity-sized :
    (r : Ring) (size mask capacity : ℕ) → (sized r size mask capacity).capacity ≡ capacity
unfolding sized
capacity-sized r size mask capacity = refl

-- What each branch returns.
module _ (r : Ring) (name : List ℕ) (count flags : ℕ) where
  pub long_name :
      name_size ≤ length name → init r name count flags ≡ (err enametoolong, named r name)
  unfolding init
  long_name h = rw test
    where
      test : leb name_size (length name) ≡ true
      test = ground arith

  module _ (short : length name < name_size) where
    test : leb name_size (length name) ≡ false
    test = ground arith

    pub exact_branch :
        has flags exact_sz ≡ true
        → init r name count flags ≡ (
          ok tt,
          sized
              (ready r name flags)
              (align32pow2 (add32 count 1))
              (sub32 (align32pow2 (add32 count 1)) 1)
              count,
        )
    unfolding init
    exact_branch e = rw (test, e)

    pub rejected_branch :
        has flags exact_sz ≡ false
        → rejected count ≡ true
        → init r name count flags ≡ (err einval, ready r name flags)
    unfolding init
    rejected_branch e h = rw (test, e, h)

    pub accepted_branch :
        has flags exact_sz ≡ false
        → rejected count ≡ false
        → init r name count flags
          ≡ (ok tt, sized (ready r name flags) count (sub32 count 1) (sub32 count 1))
    unfolding init
    accepted_branch e h = rw (test, e, h)

-- An empty ring of `size` slots whose capacity is `capacity`.
pub record Starts (result : Result (Unit {0}) × Ring) (capacity : ℕ) : Type 0 where
  pub succeeds : result.0 ≡ ok tt
  pub valid : IsValid result.1
  pub empty : contents result.1 ≡ []
  pub holds : result.1.capacity ≡ capacity

module _ (r : Ring) (name : List ℕ) (flags k capacity : ℕ) where
  ready-Starts :
      k < 32
      → capacity < 2 ^ k
      → length r.slots ≡ 2 ^ k
      → Starts (ok tt, sized (ready r name flags) (2 ^ k) (2 ^ k - 1) capacity) capacity
  ready-Starts h spare full = record {
    succeeds = refl;
    valid = both.0;
    empty = both.1;
    holds = capacity-sized (ready r name flags) (2 ^ k) (2 ^ k - 1) capacity;
  }
    where
      both :
          IsValid (sized (ready r name flags) (2 ^ k) (2 ^ k - 1) capacity)
          × (contents (sized (ready r name flags) (2 ^ k) (2 ^ k - 1) capacity) ≡ [])
      both =
          sized-IsValid (ready r name flags) k capacity h spare (rw (slots-ready r name flags) full)

pow-lt32 : (k : ℕ) → 2 ^ k < 2 ^ 32 → k < 32
pow-lt32 k h = two_pow_bound k 32 (2 ^ k) (omega arith) h

module _ (r : Ring) (name : List ℕ) (count flags : ℕ) (short : length name < name_size)
    (full : length r.slots ≡ table_size count flags) where
  exact_init :
      has flags exact_sz ≡ true
      → count < 2 ^ 31
      → Starts (init r name count flags) (usable count flags)
  exact_init e h =
      rw
        (
          exact_branch r name count flags short e,
          e,
          no_wrap,
          at,
          sub32_pred (2 ^ k) (two_pow_pos k) small,
        )
        (ready-Starts r name flags k count narrow (omega (arith, rounded.2)) slots)
    where
      no_wrap : add32 count 1 ≡ count + 1
      no_wrap = omega arith

      rounded :
          (k : ℕ) × (align32pow2 (count + 1) ≡ 2 ^ k)
          × (count + 1 ≤ 2 ^ k)
          × (2 ^ k < 2 * (count + 1))
      rounded = align32pow2_least (count + 1) (omega arith) (omega arith)

      k : ℕ
      k = rounded.0

      at : align32pow2 (count + 1) ≡ 2 ^ k
      at = rounded.1

      narrow : k < 32
      narrow = pow-lt32 k (omega (arith, rounded.3))

      small : 2 ^ k ≤ 2 ^ 31
      small = two_pow_mono k 31 (omega (arith, narrow))

      slots : length r.slots ≡ 2 ^ k
      slots = rw full (rw (e, no_wrap, at))

  power_init :
      has flags exact_sz ≡ false
      → (k : ℕ) → k < 31
      → count ≡ 2 ^ k
      → Starts (init r name count flags) (usable count flags)
  power_init e k h at =
      rw
        (
          accepted_branch r name count flags short e accepts,
          e,
          at,
          sub32_pred (2 ^ k) (two_pow_pos k) (two_pow_mono k 31 (omega arith)),
        )
        (ready-Starts r name flags k (2 ^ k - 1) (omega arith) (omega (arith, two_pow_pos k)) slots)
    where
      accepts : rejected count ≡ false
      accepts = rw at (accepted k h)

      slots : length r.slots ≡ 2 ^ k
      slots = rw full (rw (e, at))

-- A successful call on a table of the right length leaves an empty ring in its representation
-- invariant, with the capacity that was asked for.
pub init_lem :
    (r : Ring) (name : List ℕ) (count flags : ℕ)
    → length name < name_size
    → IsSize count flags
    → length r.slots ≡ table_size count flags
    → Starts (init r name count flags) (usable count flags)
init_lem r name count flags short (inl (e, h)) full = exact_init r name count flags short full e h
init_lem r name count flags short (inr (e, k, h, at)) full =
    power_init r name count flags short full e k h at
