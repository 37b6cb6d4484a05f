-- ===== src/Ring/Registry/Freed.antt =====
-- A ring that is freed is gone from the registry.
use mathlib.Core.Path.{subst}
use rte_demo.Prelude.{
  ℕ, ◌≡◌, ◌≢◌, refl, sym, ap, ◌∙◌, ◌⊎◌, inl, inr, ◌↔◌, arith, Option, none, some, false, Bool-cases,
  Option-cases, ◌==◌, ==_iff,
}
use rte_demo.Ring.Types.{ok, err, enoent}
use rte_demo.Malloc.Types.{Memory}
use rte_demo.Malloc.Sockets.{free}
use rte_demo.Memzone.Types.{Zone, Config, is_used}
use rte_demo.Memzone.Reserve.{zone_free}
use rte_demo.Memzone.Names.{zone}
use rte_demo.Memzone.Reserved.{used-InRange}
use rte_demo.Memzone.Freed.{Releases, zone_free_lem}
use rte_demo.Tailq.Entries.{
  Entry, In, find_entry, find_entry-none, find_entry-In, find_entry-missed, remove_entry,
  remove_entry-In, Apart-remove,
}
use rte_demo.Ring.Registry.{
  Registry, is_named, ring_of, ring_lookup, zone_freed, free_zone, ring_free,
}
use rte_demo.Ring.Registry.Listed.{Stands, IsRegistry, Untouched-IsZones, is_named-eq, same_zone}

-- What the release of the ring `r` leaves.
pub record Frees (reg : Registry) (r : ℕ) (reg' : Registry) : Type 0 where
  pub good : IsRegistry reg'
  pub listed : (e : Entry) → In e reg'.ring_list ↔ (In e reg.ring_list × (e.item ≢ r))
  pub rings : reg'.ring_at ≡ reg.ring_at
  pub zone_gone : is_used (zone reg'.config.memzone r) ≡ false
  pub zones : (j : ℕ) → j ≢ r → zone reg'.config.memzone j ≡ zone reg.config.memzone j
  pub not_found : ring_lookup reg' (reg.ring_at r).name ≡ err enoent

module _ (reg : Registry) (r : ℕ) (mcfg : Config) (m : Memory) (v : IsRegistry reg)
    (s : Stands reg r) (w : Releases reg.config r mcfg) where
  abbrev left : Registry
  left = record {
    config = record mcfg { memory = m };
    ring_at = reg.ring_at;
    ring_list = remove_entry r reg.ring_list;
  }

  others-Stand : (e : Entry) → In e (remove_entry r reg.ring_list) → Stands left e.item
  others-Stand e h =
      let (was, ne) = (remove_entry-In r reg.ring_list e v.apart).0 h in
      let old = v.stand e was in
      let kept = w.others e.item ne in
      record {
        used = ap is_used kept ∙ old.used;
        owned = old.owned;
        named = ap (λ (z : Zone). z.name) kept ∙ old.named;
        short = old.short;
      }

  -- Another ring of the same name would stand in a zone of the same name.
  no_other :
      (e : Entry)
      → In e (remove_entry r reg.ring_list)
      → is_named left (reg.ring_at r).name e ≡ false
  no_other e h =
      let (was, ne) = (remove_entry-In r reg.ring_list e v.apart).0 h in
      let old = v.stand e was in
      elim (Bool-cases (is_named left (reg.ring_at r).name e)) [
        | inr miss ↦ miss
        | inl hit ↦ absurd (
            ne (
              same_zone reg.config e.item r (reg.ring_at e.item).name (reg.ring_at r).name v.zones
                old.used s.used old.named s.named
                (sym (is_named-eq left (reg.ring_at r).name e s.short old.short hit))))
      ]

  left-Frees : Frees reg r left
  unfolding ring_lookup
  left-Frees = record {
    good = record {
      zones = Untouched-IsZones mcfg (record mcfg { memory = m }) (refl, refl) w.good;
      apart = Apart-remove r reg.ring_list v.apart;
      stand = others-Stand;
    };
    listed = λ e. remove_entry-In r reg.ring_list e v.apart;
    rings = refl;
    zone_gone = w.gone;
    zones = w.others;
    not_found = ap ring_of (
        find_entry-none (is_named left (reg.ring_at r).name) (remove_entry r reg.ring_list)
          no_other);
  }

-- The heap does not take back the block of the zone of `r`; or it does, and then does not take back
-- that of the list entry of `r`.
abbrev pub Keeps : Registry → (r : ℕ) → Type 0
Keeps reg r =
    (free reg.config.memory (zone reg.config.memzone r).addr ≡ none)
    ⊎ ((mcfg : Config) × (x : Entry) × (zone_free reg.config r ≡ some (ok tt, mcfg))
        × In x reg.ring_list
        × (x.item ≡ r)
        × (free mcfg.memory x.te ≡ none))

-- The ways in which the release of a ring ends.
abbrev pub FreeEnds : Registry → (r : ℕ) → Option Registry → Type 0
FreeEnds reg r o =
    (Keeps reg r × (o ≡ none)) ⊎ ((reg' : Registry) × (o ≡ some reg') × Frees reg r reg')

-- After the release of the zone.
zone_freed_lem :
    (reg : Registry) (e : Entry) (mcfg : Config)
    → IsRegistry reg
    → In e reg.ring_list
    → Releases reg.config e.item mcfg
    → zone_free reg.config e.item ≡ some (ok tt, mcfg)
    → FreeEnds reg e.item (zone_freed reg e.item (ok tt, mcfg))
zone_freed_lem reg e mcfg v h w ran =
    elim (Option-cases (find_entry (λ x. x.item == e.item) reg.ring_list)) [
      | inl lost ↦ absurd (
          ground (
            arith,
            find_entry-missed (λ x. x.item == e.item) reg.ring_list e lost h,
            (==_iff e.item e.item).1 refl,
          ))
      | inr (x, found) ↦
          let same = item_of x found in
          elim (Option-cases (free mcfg.memory x.te)) [
            | inl kept ↦ inl (
              inr (
                mcfg,
                x,
                ran,
                (find_entry-In (λ x. x.item == e.item) reg.ring_list x found).0,
                same,
                kept,
              ),
              rw (found, kept) refl,
            )
            | inr (m, taken) ↦ inr (
              left reg e.item mcfg m v (v.stand e h) w,
              rw (found, taken) (rw same refl),
              left-Frees reg e.item mcfg m v (v.stand e h) w,
            )
          ]
    ]
  where
    item_of :
        (x : Entry) → find_entry (λ x. x.item == e.item) reg.ring_list ≡ some x → x.item ≡ e.item
    item_of x found =
        (==_iff x.item e.item).0 (find_entry-In (λ x. x.item == e.item) reg.ring_list x found).1

zone_ran :
    (reg : Registry) (r : ℕ) (mcfg : Config)
    → zone_free reg.config r ≡ some (ok tt, mcfg)
    → free_zone reg r (some r) ≡ zone_freed reg r (ok tt, mcfg)
zone_ran reg r mcfg ran = rw ran refl

-- In a registry that is in order, the release of a ring that is registered panics, where the heap
-- does not take back the block of its zone or, after that, that of its list entry; or it leaves a registry that
-- is in order, in which all other rings are still registered and the ring is not, its zone is not
-- in use, all other zones are as before, and a lookup of its name fails with ENOENT.
pub ring_free_lem :
    (reg : Registry) (e : Entry)
    → IsRegistry reg
    → In e reg.ring_list
    → FreeEnds reg e.item (ring_free reg (some e.item))
unfolding ring_free
ring_free_lem reg e v h =
    rw (v.stand e h).owned
      (elim (zone_free_lem reg.config e.item v.zones
        (omega (arith, used-InRange reg.config.memzone e.item (v.stand e h).used, v.zones.full))) [
          | inl (unused, ran) ↦ absurd (ground (arith, unused, (v.stand e h).used))
          | inr more ↦ elim more [
            | inl (used, kept, ran) ↦ inl (inl kept, rw ran refl)
            | inr (used, m, mcfg, taken, ran, same, w) ↦
                subst (λ o. FreeEnds reg e.item o) (sym (zone_ran reg e.item mcfg ran))
                  (zone_freed_lem reg e mcfg v h w ran)
          ]
        ])
