-- ===== src/Ring/Types.antt =====
-- The data of lib/librte_ring/rte_ring.h, and the constants that its operations share.
use rte_demo.Prelude.{ℕ, ◌-◌, ◌^◌, List, Option, Bool, true, false, ◌==◌, if◌then◌else◌}

-- `enum rte_ring_queue_behavior`
pub data Behavior : Type 0 where
  fixed variable : Behavior

-- The error numbers of errno.h that the ring returns, negated in the source.
pub data Errno : Type 0 where
  einval enobufs enoent enametoolong enomem enospc eexist : Errno

pub data Result {ℓ} (A : Type ℓ) : Type ℓ where
  ok : A → Result A
  err : Errno → Result A

-- `struct rte_ring_headtail`
pub record HeadTail : Type 0 where
  pub head : ℕ
  pub tail : ℕ
  pub single : ℕ

-- `struct rte_ring`, with the table of objects that follows it in memory (`&r[1]`).
-- `name` is the text before the terminating zero; objects are addresses and are only moved.
pub record Ring : Type 0 where
  pub name : List ℕ
  pub flags : ℕ
  pub memzone : Option ℕ
  pub size : ℕ
  pub mask : ℕ
  pub capacity : ℕ
  pub prod : HeadTail
  pub cons : HeadTail
  pub slots : List ℕ

-- `__IS_SP` and `__IS_SC`; `__IS_MP` and `__IS_MC`
abbrev pub is_single : ℕ
is_single = 1

abbrev pub is_multi : ℕ
is_multi = 0

-- `RTE_RING_SZ_MASK`
abbrev pub ring_sz_mask : ℕ
ring_sz_mask = 2 ^ 31 - 1

-- A C integer as a condition.
abbrev pub truth : ℕ → Bool
truth n = if n == 0 then false else true
