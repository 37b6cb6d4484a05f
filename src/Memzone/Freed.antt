-- ===== src/Memzone/Freed.antt =====
-- A release empties the entry of the zone.
use rte_demo.Prelude.{
  ℕ, ◌+◌, ◌<◌, ◌≡◌, ◌≢◌, refl, sym, ap, ◌∙◌, inl, inr, arith, set, none, some, Bool-cases,
  Option-cases, ◌⊎◌, true, false, ◌==◌, length-set, get_or-set_self, get_or-set_ne,
}
use rte_demo.Word.{sub32}
use rte_demo.Ring.Types.{ok, err, einval}
use rte_demo.Malloc.Types.{Memory}
use rte_demo.Malloc.Sockets.{free}
use rte_demo.Memzone.Types.{Zone, no_zone, max_memzone, Config, is_used}
use rte_demo.Memzone.Reserve.{zone_free}
use rte_demo.Memzone.Names.{zone, used_count, used_count-clear, used_count-small, IsZones}

-- What a release of the zone `i` leaves.
pub record Releases (mcfg : Config) (i : ℕ) (mcfg' : Config) : Type 0 where
  pub good : IsZones mcfg'
  pub gone : is_used (zone mcfg'.memzone i) ≡ false
  pub others : (j : ℕ) → j ≢ i → zone mcfg'.memzone j ≡ zone mcfg.memzone j

module _ (mcfg : Config) (v : IsZones mcfg) (i : ℕ) (m : Memory) (h : i < max_memzone)
    (used : is_used (zone mcfg.memzone i) ≡ true) where
  abbrev emptied : Config
  emptied = record mcfg {
    memzone_cnt = sub32 mcfg.memzone_cnt 1;
    memzone = set mcfg.memzone i no_zone;
    memory = m;
  }

  fewer : used_count (set mcfg.memzone i no_zone) + 1 ≡ used_count mcfg.memzone
  fewer = used_count-clear mcfg.memzone i (omega (arith, v.full)) used

  self : zone (set mcfg.memzone i no_zone) i ≡ no_zone
  self = get_or-set_self mcfg.memzone i no_zone no_zone (omega (arith, v.full))

  other : (j : ℕ) → j ≢ i → zone (set mcfg.memzone i no_zone) j ≡ zone mcfg.memzone j
  other j ne = get_or-set_ne mcfg.memzone i j no_zone no_zone (λ e. ne (sym e))

  apart : (j : ℕ) → is_used (zone (set mcfg.memzone i no_zone) j) ≡ true → j ≢ i
  apart j p e = absurd (
      ground (
        arith,
        p,
        ap (λ (t : ℕ). is_used (zone (set mcfg.memzone i no_zone) t)) e,
        ap is_used self,
      ))

  old :
      (j : ℕ)
      → is_used (zone (set mcfg.memzone i no_zone) j) ≡ true
      → is_used (zone mcfg.memzone j) ≡ true
  old j p = ap is_used (sym (other j (apart j p))) ∙ p

  emptied-Releases : Releases mcfg i emptied
  emptied-Releases = record {
    good = record {
      full = length-set mcfg.memzone i no_zone ∙ v.full;
      counted = omega (arith, fewer, v.counted, used_count-small mcfg.memzone, v.full);
      unique = λ j k p q e. v.unique j k (old j p) (old k q) (
          ap (λ (t : Zone). t.name) (sym (other j (apart j p)))
          ∙ e
          ∙ ap (λ (t : Zone). t.name) (other k (apart k q)));
    };
    gone = ap is_used self;
    others = other;
  }

-- In a table that is in order, the release of an entry that is not in use returns -EINVAL and
-- changes nothing. That of a zone panics where the heap does not take its block back, and only
-- there; if not, it returns 0, the entry is empty, the table in order, and all other entries are as
-- before.
pub zone_free_lem :
    (mcfg : Config) (i : ℕ)
    → IsZones mcfg
    → i < max_memzone
    → ((is_used (zone mcfg.memzone i) ≡ false) × (zone_free mcfg i ≡ some (err einval, mcfg)))
      ⊎ ((is_used (zone mcfg.memzone i) ≡ true)
          × (free mcfg.memory (zone mcfg.memzone i).addr ≡ none)
          × (zone_free mcfg i ≡ none))
      ⊎ ((is_used (zone mcfg.memzone i) ≡ true)
          × (m : Memory) × (mcfg' : Config) × (free mcfg.memory (zone mcfg.memzone i).addr ≡ some m)
          × (zone_free mcfg i ≡ some (ok tt, mcfg'))
          × (mcfg'.memory ≡ m)
          × Releases mcfg i mcfg')
unfolding zone_free
zone_free_lem mcfg i v h = elim (Bool-cases (is_used (zone mcfg.memzone i))) [
  | inr unused ↦ inl (unused, rw (empty unused) refl)
  | inl used ↦ elim (Option-cases (free mcfg.memory (zone mcfg.memzone i).addr)) [
    | inl kept ↦ inr (inl (used, kept, rw (taken used, counted used, kept) refl))
    | inr (m, ran) ↦ inr (
        inr (
          used,
          m,
          emptied mcfg v i m h used,
          ran,
          rw (taken used, counted used, ran) refl,
          refl,
          emptied-Releases mcfg v i m h used,
        ))
  ]
]
  where
    empty : is_used (zone mcfg.memzone i) ≡ false → ((zone mcfg.memzone i).addr == 0) ≡ true
    empty e = ground (arith, e)

    taken : is_used (zone mcfg.memzone i) ≡ true → ((zone mcfg.memzone i).addr == 0) ≡ false
    taken e = ground (arith, e)

    counted : is_used (zone mcfg.memzone i) ≡ true → (mcfg.memzone_cnt == 0) ≡ false
    counted e = ground (arith, used_count-clear mcfg.memzone i (omega (arith, v.full)) e, v.counted)
