-- ===== src/Ring/Registry/Listed.antt =====
-- The registry of rings in order, and what a lookup finds in it.
use mathlib.Core.Path.{subst}
use rte_demo.Prelude.{
  same_name_refl, same_name_eq, take_all, ℕ, ◌<◌, ◌≡◌, sym, ap, ◌∙◌, arith, List, ◌++◌, length,
  take, some, true,
}
use rte_demo.Memzone.Types.{Zone, Config, is_used}
use rte_demo.Memzone.Names.{zone, used_count, IsZones}
use rte_demo.Memzone.Reserved.{Untouched}
use rte_demo.Tailq.Entries.{Entry, In, Apart}
use rte_demo.Ring.Registry.{Registry, ring_prefix, ring_namesize, is_named}

-- A ring that is registered stands in a zone in use, which has its name behind "RG_", and knows it.
pub record Stands (reg : Registry) (item : ℕ) : Type 0 where
  pub used : is_used (zone reg.config.memzone item) ≡ true
  pub owned : (reg.ring_at item).memzone ≡ some item
  pub named : (zone reg.config.memzone item).name ≡ ring_prefix ++ (reg.ring_at item).name
  pub short : length (reg.ring_at item).name < ring_namesize

-- The table of zones is in order, no ring is registered twice, and all stand in zones of theirs.
pub record IsRegistry (reg : Registry) : Type 0 where
  pub zones : IsZones reg.config
  pub apart : Apart reg.ring_list
  pub stand : (e : Entry) → In e reg.ring_list → Stands reg e.item

pub Untouched-IsZones : (a b : Config) → Untouched a b → IsZones a → IsZones b
Untouched-IsZones a b (p, q) v = record {
  full = ap length p ∙ v.full;
  counted = q ∙ v.counted ∙ ap used_count (sym p);
  unique =
      subst
        (λ (zs : List Zone).
          (i j : ℕ)
          → is_used (zone zs i) ≡ true
          → is_used (zone zs j) ≡ true
          → (zone zs i).name ≡ (zone zs j).name
          → i ≡ j)
        (sym p) v.unique;
}

-- A change of the memory alone keeps a registry in order.
pub Untouched-IsRegistry :
    (reg : Registry) (mcfg : Config)
    → Untouched reg.config mcfg
    → IsRegistry reg
    → IsRegistry (record reg { config = mcfg })
Untouched-IsRegistry reg mcfg same v = record {
  zones = Untouched-IsZones reg.config mcfg same v.zones;
  apart = v.apart;
  stand = λ e h. record {
    used = ap (λ (zs : List Zone). is_used (zone zs e.item)) same.0 ∙ (v.stand e h).used;
    owned = (v.stand e h).owned;
    named = ap (λ (zs : List Zone). (zone zs e.item).name) same.0 ∙ (v.stand e h).named;
    short = (v.stand e h).short;
  };
}

-- On names that are not too long the bound of the comparison does not matter.
pub is_named-eq :
    (reg : Registry) (name : List ℕ) (e : Entry)
    → length name < ring_namesize
    → length (reg.ring_at e.item).name < ring_namesize
    → is_named reg name e ≡ true
    → name ≡ (reg.ring_at e.item).name
is_named-eq reg name e h k p =
    sym (take_all ring_namesize name (omega arith))
    ∙ same_name_eq (take ring_namesize name) (take ring_namesize (reg.ring_at e.item).name) p
    ∙ take_all ring_namesize (reg.ring_at e.item).name (omega arith)

pub is_named_self :
    (reg : Registry) (name : List ℕ) (e : Entry)
    → (reg.ring_at e.item).name ≡ name
    → is_named reg name e ≡ true
is_named_self reg name e p = rw p (same_name_refl (take ring_namesize name))

-- Two zones in use for the same ring name are one.
pub same_zone :
    (mcfg : Config) (i j : ℕ) (a b : List ℕ)
    → IsZones mcfg
    → is_used (zone mcfg.memzone i) ≡ true
    → is_used (zone mcfg.memzone j) ≡ true
    → (zone mcfg.memzone i).name ≡ ring_prefix ++ a
    → (zone mcfg.memzone j).name ≡ ring_prefix ++ b
    → a ≡ b
    → i ≡ j
same_zone mcfg i j a b v p q h k same =
    v.unique i j p q (h ∙ ap (λ (t : List ℕ). ring_prefix ++ t) same ∙ sym k)
