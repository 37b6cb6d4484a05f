-- ===== src/Memzone/Reserved.antt =====
-- A reservation takes an entry that is free, and keeps the names of the zones distinct.
use rte_demo.Prelude.{
  same_name, same_name_refl, same_name_eq, ℕ, zero, suc, ◌+◌, ◌≤◌, ◌<◌, ◌≡◌, ◌≢◌, refl, sym, ap,
  ◌∙◌, ◌⊎◌, inl, inr, arith, List, [], ◌∷◌, length, set, Option, none, some, Bool-cases,
  Option-cases, true, false, ◌&&◌, ltb, leb, ◌==◌, ==_iff, if◌then◌else◌, length-set,
  get_or-set_self, get_or-set_ne,
}
use rte_demo.Ring.Types.{Errno, Result, ok, err, enospc, eexist, enomem, enametoolong}
use rte_demo.Malloc.Types.{Memory}
use rte_demo.Malloc.Sockets.{Layer, socket_id_any}
use rte_demo.Memzone.Types.{
  Zone, no_zone, max_memzone, Config, is_used, lookup, get_next_free_memzone,
}
use rte_demo.Memzone.Reserve.{
  refused, zone_size, zone_alloc, filled, put_zone, fill_zone, allocated, reserve_checked,
  reserve_bounded,
}
use rte_demo.Memzone.Names.{zone, search_lem, used_count, used_count-fill, IsZones, all_used}

-- What a reservation leaves that returns the zone `i`.
pub record Reserves (mcfg : Config) (name : List ℕ) (i : ℕ) (mcfg' : Config) : Type 0 where
  pub good : IsZones mcfg'
  pub fresh : is_used (zone mcfg.memzone i) ≡ false
  pub taken : is_used (zone mcfg'.memzone i) ≡ true
  pub named : (zone mcfg'.memzone i).name ≡ name
  pub others : (j : ℕ) → j ≢ i → zone mcfg'.memzone j ≡ zone mcfg.memzone j
  pub found : lookup mcfg' name ≡ some i

-- No zone in use has the name.
abbrev Unnamed : Config → List ℕ → Type 0
Unnamed mcfg name =
    (k : ℕ) → is_used (zone mcfg.memzone k) ≡ true → (zone mcfg.memzone k).name ≢ name

out_of_range : (zs : List Zone) (k : ℕ) → length zs ≤ k → zone zs k ≡ no_zone
out_of_range [] k h = refl
out_of_range (z ∷ zs) zero h = absurd (omega arith)
out_of_range (z ∷ zs) (suc k) h = out_of_range zs k (omega arith)

pub used-InRange : (zs : List Zone) (k : ℕ) → is_used (zone zs k) ≡ true → k < length zs
used-InRange zs k e = elim (Bool-cases (ltb k (length zs))) [
  | inl h ↦ ground arith
  | inr h ↦ absurd (ground (arith, e, ap is_used (out_of_range zs k (ground arith))))
]

found_one : Option ℕ → ℕ
found_one none = 0
found_one (some i) = 1

pub lookup-Unnamed : (mcfg : Config) (name : List ℕ) → lookup mcfg name ≡ none → Unnamed mcfg name
unfolding lookup
lookup-Unnamed mcfg name e k used same =
    elim (search_lem (λ z. is_used z && same_name name z.name) mcfg.memzone 0) [
      | inl (ran, none_found) ↦ apart (none_found k (used-InRange mcfg.memzone k used))
      | inr (i, ran, in_range, hit, first) ↦ absurd (ground (arith, ap found_one (sym ran ∙ e)))
    ]
  where
    apart : (is_used (zone mcfg.memzone k) && same_name name (zone mcfg.memzone k).name) ≡ false → ⊥
    apart h = ground (arith, h, used, ap (same_name name) same, same_name_refl name)

-- A table with one more zone.
module _ (mcfg mcfg' : Config) (name : List ℕ) (i : ℕ) (z : Zone) (v : IsZones mcfg)
    (h : i < length mcfg.memzone) (free : is_used (zone mcfg.memzone i) ≡ false)
    (taken : is_used z ≡ true) (unnamed : Unnamed mcfg name) (named : z.name ≡ name)
    (zs : mcfg'.memzone ≡ set mcfg.memzone i z)
    (cnt : mcfg'.memzone_cnt ≡ mcfg.memzone_cnt + 1) where
  self : zone mcfg'.memzone i ≡ z
  self = rw zs (get_or-set_self mcfg.memzone i z no_zone h)

  other : (j : ℕ) → j ≢ i → zone mcfg'.memzone j ≡ zone mcfg.memzone j
  other j ne = rw zs (get_or-set_ne mcfg.memzone i j z no_zone (λ e. ne (sym e)))

  still_IsZones : IsZones mcfg'
  still_IsZones = record {
    full = ap length zs ∙ length-set mcfg.memzone i z ∙ v.full;
    counted =
        omega
          (arith, cnt, v.counted, ap used_count zs, used_count-fill mcfg.memzone i z h free taken);
    unique = λ j k p q e. elim (Bool-cases (j == i)) [
      | inl a ↦ elim (Bool-cases (k == i)) [
        | inl b ↦ (==_iff j i).0 a ∙ sym ((==_iff k i).0 b)
        | inr b ↦ absurd (clash k j (apart k b) ((==_iff j i).0 a) q (sym e))
      ]
      | inr a ↦ elim (Bool-cases (k == i)) [
        | inl b ↦ absurd (clash j k (apart j a) ((==_iff k i).0 b) p e)
        | inr b ↦
            v.unique j k (old j (apart j a) p) (old k (apart k b) q)
              (old_name j (apart j a) ∙ e ∙ sym (old_name k (apart k b)))
      ]
    ];
  }
    where
      apart : (j : ℕ) → (j == i) ≡ false → j ≢ i
      apart j e p = absurd (ground (arith, e, p))

      old :
          (j : ℕ)
          → j ≢ i
          → is_used (zone mcfg'.memzone j) ≡ true
          → is_used (zone mcfg.memzone j) ≡ true
      old j ne p = ap is_used (sym (other j ne)) ∙ p

      old_name : (j : ℕ) → j ≢ i → (zone mcfg.memzone j).name ≡ (zone mcfg'.memzone j).name
      old_name j ne = ap (λ (t : Zone). t.name) (sym (other j ne))

      clash :
          (j k : ℕ)
          → j ≢ i
          → k ≡ i
          → is_used (zone mcfg'.memzone j) ≡ true
          → (zone mcfg'.memzone j).name ≡ (zone mcfg'.memzone k).name
          → ⊥
      clash j k ne at p e = unnamed j (old j ne p) (
          old_name j ne
          ∙ e
          ∙ ap (λ (t : ℕ). (zone mcfg'.memzone t).name) at
          ∙ ap (λ (t : Zone). t.name) self
          ∙ named)

  found_again : lookup mcfg' name ≡ some i
  unfolding lookup
  found_again = elim (search_lem (λ w. is_used w && same_name name w.name) mcfg'.memzone 0) [
    | inl (ran, none_found) ↦ absurd (
        ground (
          arith,
          none_found i (omega (arith, ap length zs, length-set mcfg.memzone i z)),
          at_i,
          ap (same_name name) name_i,
          same_name_refl name,
        ))
    | inr (k, ran, h', hit, first) ↦
        ran
        ∙ ap some (
            none_skipped k
            ∙ still_IsZones.unique k i (ground (arith, hit)) at_i (
                sym (same_name_eq name (zone mcfg'.memzone k).name (ground (arith, hit)))
                ∙ sym name_i))
  ]
    where
      none_skipped : (k : ℕ) → 0 + k ≡ k
      none_skipped k = omega arith

      at_i : is_used (zone mcfg'.memzone i) ≡ true
      at_i = ap is_used self ∙ taken

      name_i : (zone mcfg'.memzone i).name ≡ name
      name_i = ap (λ (t : Zone). t.name) self ∙ named

  filled-Reserves : Reserves mcfg name i mcfg'
  filled-Reserves = record {
    good = still_IsZones;
    fresh = free;
    taken = ap is_used self ∙ taken;
    named = ap (λ (t : Zone). t.name) self ∙ named;
    others = other;
    found = found_again;
  }

-- What a reservation leaves that fails.
abbrev pub Untouched : Config → Config → Type 0
Untouched mcfg mcfg' = (mcfg'.memzone ≡ mcfg.memzone) × (mcfg'.memzone_cnt ≡ mcfg.memzone_cnt)

abbrev pub Outcome : Config → List ℕ → Result ℕ × Config → Type 0
Outcome mcfg name r =
    ((i : ℕ) × (r.0 ≡ ok i) × Reserves mcfg name i r.1)
    ⊎ ((e : Errno) × (r.0 ≡ err e) × Untouched mcfg r.1)

with_memory : (mcfg : Config) (m : Memory) → IsZones mcfg → IsZones (record mcfg { memory = m })
with_memory mcfg m v = record { full = v.full; counted = v.counted; unique = v.unique }

fill_zone_lem :
    (layer : Layer) (mcfg : Config) (name : List ℕ) (len addr : ℕ)
    → IsZones mcfg
    → mcfg.memzone_cnt < max_memzone
    → Unnamed mcfg name
    → (addr == 0) ≡ false
    → Outcome mcfg name (fill_zone layer mcfg name len addr)
unfolding fill_zone get_next_free_memzone
fill_zone_lem layer mcfg name len addr v room unnamed given =
    elim (search_lem (λ z. z.addr == 0) mcfg.memzone 0) [
      | inl (ran, none_found) ↦
          absurd (omega (arith, all_used mcfg.memzone none_found, v.full, v.counted))
      | inr (i, ran, h, hit, first) ↦
          rw (ran, none_skipped i)
            (inl (
              i,
              refl,
              filled-Reserves mcfg (put_zone layer mcfg name len addr (some i)).1 name i
                  (filled layer mcfg.memory name len addr) v h (ground (arith, hit))
                  (ground (arith, given)) unnamed refl refl (omega (arith, room)),
            ))
    ]
  where
    none_skipped : (k : ℕ) → 0 + k ≡ k
    none_skipped k = omega arith

-- The tests that are passed.
none_refused : {A : Type 0} (e : Errno) → (o : Option Errno) → o ≡ some e → o ≡ none → A
none_refused e o p q = absurd (ground (arith, ap found_error (sym p ∙ q)))
  where
    found_error : Option Errno → ℕ
    found_error none = 0
    found_error (some x) = 1

module _ (mcfg : Config) (name : List ℕ) (len socket_id align bound : ℕ)
    (e : refused mcfg name len socket_id align bound ≡ none) where
  room_left : mcfg.memzone_cnt < max_memzone
  unfolding refused
  room_left = elim (Bool-cases (leb max_memzone mcfg.memzone_cnt)) [
    | inl h ↦ none_refused enospc (refused mcfg name len socket_id align bound) (rw h refl) e
    | inr h ↦ ground arith
  ]

  name_new : lookup mcfg name ≡ none
  unfolding refused
  name_new = elim (Option-cases (lookup mcfg name)) [
    | inl none_found ↦ none_found
    | inr (i, found) ↦ elim (Bool-cases (leb max_memzone mcfg.memzone_cnt)) [
      | inl h ↦ none_refused enospc (refused mcfg name len socket_id align bound) (rw h refl) e
      | inr h ↦ elim (Bool-cases (ltb 31 (length name))) [
        | inl k ↦
            none_refused enametoolong (refused mcfg name len socket_id align bound) (rw (h, k) refl)
              e
        | inr k ↦
            none_refused eexist (refused mcfg name len socket_id align bound)
              (rw (h, k, found) refl) e
      ]
    ]
  ]

allocated_lem :
    (layer : Layer) (mcfg : Config) (name : List ℕ) (size : ℕ) (got : Memory × ℕ)
    → IsZones mcfg
    → mcfg.memzone_cnt < max_memzone
    → Unnamed mcfg name
    → Outcome mcfg name (allocated layer mcfg name size got)
unfolding allocated
allocated_lem layer mcfg name size (m, addr) v room unnamed = elim (Bool-cases (size == 0)) [
  | inl h ↦ rw h (inr (enomem, refl, (refl, refl)))
  | inr h ↦ elim (Bool-cases (addr == 0)) [
    | inl k ↦ rw (h, k) (inr (enomem, refl, (refl, refl)))
    | inr k ↦
        rw (h, k)
          (elim (fill_zone_lem layer (record mcfg { memory = m }) name size addr
            (with_memory mcfg m v) room unnamed k) [
              | inl (i, r, w) ↦ inl (
                i,
                r,
                record {
                  good = w.good;
                  fresh = w.fresh;
                  taken = w.taken;
                  named = w.named;
                  others = w.others;
                  found = w.found;
                },
              )
              | inr (e, r, same) ↦ inr (e, r, same)
            ])
  ]
]

reserve_checked_lem :
    (layer : Layer) (mcfg : Config) (name : List ℕ) (len socket_id flags align bound : ℕ)
    → IsZones mcfg
    → mcfg.memzone_cnt < max_memzone
    → Unnamed mcfg name
    → Outcome mcfg name (reserve_checked layer mcfg name len socket_id flags align bound)
unfolding reserve_checked
reserve_checked_lem layer mcfg name len socket_id flags align bound v room unnamed =
    let wanted = if layer.has_hugepages then socket_id else socket_id_any in
    let sized = zone_size layer mcfg.memory len wanted align bound in
    allocated_lem layer mcfg name sized.0
      (zone_alloc layer mcfg.memory sized.1 sized.0 flags align bound) v room unnamed

-- A reservation in a table that is in order ends in one of two ways, whatever its arguments and the
-- state of the heaps. It returns a zone whose entry was not in use; then the table is in order, the
-- lookup of the name finds that entry, and all others are as before. Or it returns an error and no
-- entry has changed.
pub reserve_bounded_lem :
    (layer : Layer) (mcfg : Config) (name : List ℕ) (len socket_id flags align bound : ℕ)
    → IsZones mcfg
    → Outcome mcfg name (reserve_bounded layer mcfg name len socket_id flags align bound)
unfolding reserve_bounded
reserve_bounded_lem layer mcfg name len socket_id flags align bound v =
    elim (Option-cases (refused mcfg name len socket_id align bound)) [
      | inr (e, h) ↦ rw h (inr (e, refl, (refl, refl)))
      | inl h ↦ rw h (
          reserve_checked_lem layer mcfg name len socket_id flags
            (if ltb align 64 then 64 else align) bound v
            (room_left mcfg name len socket_id align bound h)
            (lookup-Unnamed mcfg name (name_new mcfg name len socket_id align bound h)))
    ]
