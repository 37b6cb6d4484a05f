-- ===== src/Mempool/Named.antt =====
-- Operations that are registered can be chosen by their name.
use rte_demo.Prelude.{
  same_name, same_name_refl, same_name_eq, ℕ, zero, suc, ◌+◌, ◌-◌, ◌≤◌, ◌<◌, ◌≡◌, ◌≢◌, refl, sym,
  ap, ◌∙◌, ◌⊎◌, inl, inr, arith, List, [], ◌∷◌, length, get_or, set, some, Bool-cases, false, ◌||◌,
  leb, length-set, get_or-set_self,
}
use rte_demo.Ring.Types.{Errno, einval, enospc, eexist, ok, err}
use rte_demo.Ring.Setup.{has}
use rte_demo.Mempool.Store.{Store}
use rte_demo.Mempool.Types.{Pool}
use rte_demo.Mempool.Populate.{pool_created}
use rte_demo.Mempool.Ops.{
  Callbacks, max_ops_idx, ops_namesize, OpsTable, no_ops, is_null, register_ops, find_ops,
  set_ops_byname,
}

abbrev pub IsOps : OpsTable → Type 0
IsOps t = (length t.entries ≡ max_ops_idx) × (t.num_ops ≤ max_ops_idx)

-- The first of the entries up to the index `m`, which has the name, that has it.
abbrev pub FirstNamed : List Callbacks → List ℕ → (m j : ℕ) → Type 0
FirstNamed entries name m j =
    (j ≤ m)
    × ((get_or entries j no_ops).name ≡ name)
    × ((k : ℕ) → k < j → (get_or entries k no_ops).name ≢ name)

other_name : (a b : List ℕ) → same_name a b ≡ false → b ≢ a
other_name a b e p = absurd (ground (arith, e, ap (same_name a) p, same_name_refl a))

next_first :
    (entries : List Callbacks) (e : Callbacks) (name : List ℕ) (m j : ℕ)
    → same_name name e.name ≡ false
    → FirstNamed entries name m j
    → FirstNamed (e ∷ entries) name (suc m) (suc j)
next_first entries e name m j differs (h, same, first) = (omega arith, same, earlier)
  where
    earlier : (k : ℕ) → k < suc j → (get_or (e ∷ entries) k no_ops).name ≢ name
    earlier zero p = other_name name e.name differs
    earlier (suc k) p = first k (omega arith)

-- The loop finds the first entry with a name that one of them has.
find_ops_lem :
    (entries : List Callbacks) (n i : ℕ) (name : List ℕ) (m : ℕ)
    → m < n
    → m < length entries
    → (get_or entries m no_ops).name ≡ name
    → (j : ℕ) × (find_ops entries n i name ≡ some (i + j)) × FirstNamed entries name m j
unfolding find_ops
find_ops_lem entries zero i name m h k same = absurd (omega arith)
find_ops_lem [] (suc n) i name m h k same = elim k [ ]
find_ops_lem (e ∷ entries) (suc n) i name zero h k same =
    elim (Bool-cases (same_name name e.name)) [
      | inl hit ↦ (
        0,
        rw hit (ap some (omega arith)),
        (omega arith, sym (same_name_eq name e.name hit), λ q p. absurd (omega arith)),
      )
      | inr differs ↦ absurd (other_name name e.name differs same)
    ]
find_ops_lem (e ∷ entries) (suc n) i name (suc m) h k same =
    elim (Bool-cases (same_name name e.name)) [
      | inl hit ↦ (
        0,
        rw hit (ap some (omega arith)),
        (omega arith, sym (same_name_eq name e.name hit), λ q p. absurd (omega arith)),
      )
      | inr differs ↦
          let (j, ran, first) =
            find_ops_lem entries n (i + 1) name m (omega arith) (omega arith) same in
          (
            suc j,
            rw differs (ran ∙ ap some (omega arith)),
            next_first entries e name m j differs first,
          )
    ]

module _ {store : Store} where
  -- A registration fails and changes nothing, or it takes the next index, and a pool that is not
  -- populated yet can choose the operations by their name: the choice is the first entry that has
  -- the name, which is the new one or an earlier one, and the configuration is kept with it.
  pub set_ops_byname-register_ops :
      (t : OpsTable) (h : Callbacks) (mp : Pool store) (config : ℕ)
      → IsOps t
      → has mp.flags pool_created ≡ false
      → ((e : Errno) × (register_ops t h ≡ (err e, t)))
        ⊎ ((t' : OpsTable) × (register_ops t h ≡ (ok t.num_ops, t'))
            × IsOps t'
            × (get_or t'.entries t.num_ops no_ops ≡ h)
            × (j : ℕ) × (set_ops_byname t' mp h.name config
                ≡ (ok tt, record mp { ops_index = j; pool_config = config }))
            × FirstNamed t'.entries h.name t.num_ops j)
  unfolding register_ops set_ops_byname
  set_ops_byname-register_ops t h mp config v fresh =
      elim (Bool-cases (leb max_ops_idx t.num_ops)) [
        | inl a ↦ inl (enospc, rw a refl)
        | inr a ↦
            elim (Bool-cases
              (is_null h.alloc || is_null h.enqueue || is_null h.dequeue || is_null h.get_count)) [
                | inl b ↦ inl (einval, rw (a, b) refl)
                | inr b ↦ elim (Bool-cases (leb (ops_namesize - 1) (length h.name))) [
                  | inl c ↦ inl (eexist, rw (a, b, c) refl)
                  | inr c ↦
                      let entries = set t.entries t.num_ops h in
                      let self =
                        get_or-set_self t.entries t.num_ops h no_ops (ground (arith, v.0)) in
                      let (j, ran, first) =
                        find_ops_lem entries (t.num_ops + 1) 0 h.name t.num_ops (omega arith)
                          (ground (arith, v.0, length-set t.entries t.num_ops h))
                          (ap (λ (e : Callbacks). e.name) self) in
                      inr (
                        record { num_ops = t.num_ops + 1; entries = entries },
                        rw (a, b, c) refl,
                        (length-set t.entries t.num_ops h ∙ v.0, ground arith),
                        self,
                        j,
                        rw (fresh, ran, from_zero j) refl,
                        first,
                      )
                ]
              ]
      ]
    where
      from_zero : (j : ℕ) → 0 + j ≡ j
      from_zero j = omega arith
