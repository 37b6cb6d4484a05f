-- ===== src/Ring/Registry/Created.antt =====
-- A ring that is created can be looked up.
use mathlib.Core.Path.{subst}
use rte_demo.Prelude.{
  take_all, ℕ, zero, suc, ◌+◌, ◌-◌, ◌<◌, ◌≡◌, ◌≢◌, refl, sym, ap, ◌∙◌, ◌⊎◌, inl, inr, arith, List,
  [], ◌∷◌, ◌++◌, length, take, Option, none, some, false, Bool-cases, Option-cases, leb, ◌==◌,
  ==_iff,
}
use rte_demo.Ring.Types.{Errno, Result, ok, err, enametoolong, enomem, Ring}
use rte_demo.Ring.Setup.{
  has, exact_sz, name_size, ring_struct_size, get_memsize, rejected, named, flagged, sized, init,
}
use rte_demo.Ring.Invariant.{IsValid, contents}
use rte_demo.Ring.Fresh.{IsSize, table_size, usable, Starts, init_lem}
use rte_demo.Malloc.Types.{Memory, update}
use rte_demo.Malloc.Sockets.{Layer, malloc, free}
use rte_demo.Memzone.Types.{Zone, Config, is_used}
use rte_demo.Memzone.Names.{zone}
use rte_demo.Memzone.Reserve.{reserve_aligned}
use rte_demo.Memzone.Reserved.{Reserves, Untouched, Outcome, reserve_bounded_lem}
use rte_demo.Tailq.Entries.{Entry, In, In-append, Apart-append, find_entry-append}
use rte_demo.Ring.Registry.{
  Registry, ring_prefix, ring_namesize, tailq_entry_size, ring_alignment, words, rounded_count,
  new_ring, with_memory, zone_reserved, entry_allocated, create_sized, ring_create, is_named,
  ring_of, ring_lookup,
}
use rte_demo.Ring.Registry.Listed.{
  Stands, IsRegistry, Untouched-IsZones, Untouched-IsRegistry, is_named-eq, is_named_self,
  same_zone,
}

length-words : (word_at : ℕ → ℕ) (addr n : ℕ) → length (words word_at addr n) ≡ n
unfolding words
length-words word_at addr zero = refl
length-words word_at addr (suc n) = ap suc (length-words word_at (addr + 8) n)

name-init :
    (r : Ring) (name : List ℕ) (count flags : ℕ)
    → (init r name count flags).1.name ≡ take (name_size - 1) name
unfolding init named flagged sized
name-init r name count flags = elim (Bool-cases (leb name_size (length name))) [
  | inl h ↦ rw h refl
  | inr h ↦ elim (Bool-cases (has flags exact_sz)) [
    | inl k ↦ rw (h, k) refl
    | inr k ↦ elim (Bool-cases (rejected count)) [
      | inl l ↦ rw (h, k, l) refl
      | inr l ↦ rw (h, k, l) refl
    ]
  ]
]

owner-IsValid : (r : Ring) (mz : Option ℕ) → IsValid r → IsValid (record r { memzone = mz })
owner-IsValid r mz v = record {
  shape = record {
    order = v.shape.order;
    order_lt = v.shape.order_lt;
    size_pow = v.shape.size_pow;
    mask_low = v.shape.mask_low;
    table = v.shape.table;
  };
  spare = v.spare;
  prod_word = v.prod_word;
  cons_word = v.cons_word;
  prod_quiet = v.prod_quiet;
  cons_quiet = v.cons_quiet;
  stored = v.stored;
}

-- What a creation leaves that returns the ring `mz`.
pub record Creates (reg : Registry) (name : List ℕ) (capacity mz : ℕ) (reg' : Registry)
    : Type 0 where
  pub good : IsRegistry reg'
  pub valid : IsValid (reg'.ring_at mz)
  pub empty : contents (reg'.ring_at mz) ≡ []
  pub holds : (reg'.ring_at mz).capacity ≡ capacity
  pub found : ring_lookup reg' name ≡ ok mz
  pub entry : ℕ
  pub listed : reg'.ring_list ≡ reg.ring_list ++ (record { te = entry; item = mz } ∷ [])
  pub others : (j : ℕ) → j ≢ mz → reg'.ring_at j ≡ reg.ring_at j

module _ (word_at : ℕ → ℕ) (name : List ℕ) (count flags : ℕ) (short : length name < ring_namesize)
    (size : IsSize count flags) where
  new_ring_lem :
      (r : Ring) (mz : ℕ)
      → IsValid (new_ring word_at r mz name count flags)
        × (contents (new_ring word_at r mz name count flags) ≡ [])
        × ((new_ring word_at r mz name count flags).capacity ≡ usable count flags)
        × ((new_ring word_at r mz name count flags).memzone ≡ some mz)
        × ((new_ring word_at r mz name count flags).name ≡ name)
  unfolding new_ring rounded_count
  new_ring_lem r mz = (
    owner-IsValid (init blank name count flags).1 (some mz) started.valid,
    started.empty,
    started.holds,
    refl,
    name-init blank name count flags ∙ take_all (name_size - 1) name (omega arith),
  )
    where
      blank : Ring
      blank = record r { slots = words word_at ring_struct_size (rounded_count count flags) }

      same_size : rounded_count count flags ≡ table_size count flags
      same_size = refl

      started : Starts (init blank name count flags) (usable count flags)
      started =
          init_lem blank name count flags (omega arith) size
            (length-words word_at ring_struct_size (rounded_count count flags) ∙ same_size)

  -- The registry after the zone `mz` was reserved.
  module _ (reg : Registry) (te mz : ℕ) (mcfg : Config) (v : IsRegistry reg)
      (w : Reserves reg.config (ring_prefix ++ name) mz mcfg) where
    abbrev added : Registry
    added = record {
      config = mcfg;
      ring_at = update reg.ring_at mz (new_ring word_at (reg.ring_at mz) mz name count flags);
      ring_list = reg.ring_list ++ (record { te = te; item = mz } ∷ []);
    }

    at_new : added.ring_at mz ≡ new_ring word_at (reg.ring_at mz) mz name count flags
    at_new = rw ((==_iff mz mz).1 refl) refl

    new_name : (added.ring_at mz).name ≡ name
    new_name = ap (λ (r : Ring). r.name) at_new ∙ (new_ring_lem (reg.ring_at mz) mz).4

    at_other : (j : ℕ) → j ≢ mz → added.ring_at j ≡ reg.ring_at j
    at_other j ne = rw (apart j ne) refl
      where
        apart : (j : ℕ) → j ≢ mz → (j == mz) ≡ false
        apart j ne = ground (arith, ne)

    -- The entries that were there are for other zones.
    old_item : (e : Entry) → In e reg.ring_list → e.item ≢ mz
    old_item e h same = absurd (
        ground (
          arith,
          w.fresh,
          ap (λ (t : ℕ). is_used (zone reg.config.memzone t)) (sym same),
          (v.stand e h).used,
        ))

    new-Stands : Stands added mz
    new-Stands = record {
      used = w.taken;
      owned = ap (λ (r : Ring). r.memzone) at_new ∙ (new_ring_lem (reg.ring_at mz) mz).3;
      named = w.named ∙ ap (λ (t : List ℕ). ring_prefix ++ t) (sym new_name);
      short = rw new_name short;
    }

    old-Stands : (e : Entry) → In e reg.ring_list → Stands added e.item
    old-Stands e h =
        let kept = w.others e.item (old_item e h) in
        let ring = at_other e.item (old_item e h) in
        let s = v.stand e h in
        record {
          used = ap is_used kept ∙ s.used;
          owned = ap (λ (r : Ring). r.memzone) ring ∙ s.owned;
          named =
              ap (λ (z : Zone). z.name) kept
              ∙ s.named
              ∙ ap (λ (r : Ring). ring_prefix ++ r.name) (sym ring);
          short = rw ring s.short;
        }

    added-IsRegistry : IsRegistry added
    added-IsRegistry = record {
      zones = w.good;
      apart = Apart-append reg.ring_list (record { te = te; item = mz }) v.apart old_item;
      stand = λ e h. elim (In-append e reg.ring_list (record { te = te; item = mz } ∷ []) h) [
        | inl p ↦ old-Stands e p
        | inr p ↦ elim p [
          | inl q ↦
              subst (λ (i : ℕ). Stands added i) (ap (λ (t : Entry). t.item) (sym q)) new-Stands
          | inr q ↦ absurd q
        ]
      ];
    }

    -- No ring that was there has the name: its zone would have had it.
    other_names : (e : Entry) → In e reg.ring_list → is_named added name e ≡ false
    other_names e h = elim (Bool-cases (is_named added name e)) [
      | inr miss ↦ miss
      | inl hit ↦ absurd (
          old_item e h (
            same_zone mcfg e.item mz (added.ring_at e.item).name (added.ring_at mz).name w.good
              (old-Stands e h).used w.taken (old-Stands e h).named new-Stands.named
              (sym (is_named-eq added name e short (old-Stands e h).short hit) ∙ sym new_name)))
    ]

    added-Creates : Creates reg name (usable count flags) mz added
    unfolding ring_lookup
    added-Creates = record {
      good = added-IsRegistry;
      valid = rw at_new (new_ring_lem (reg.ring_at mz) mz).0;
      empty = rw at_new (new_ring_lem (reg.ring_at mz) mz).1;
      holds = rw at_new (new_ring_lem (reg.ring_at mz) mz).2;
      found = ap ring_of (
          find_entry-append (is_named added name) reg.ring_list (record { te = te; item = mz })
            other_names (is_named_self added name (record { te = te; item = mz }) new_name));
      entry = te;
      listed = refl;
      others = at_other;
    }

-- What a creation leaves that fails: the registry as it was, but for the memory.
pub record Fails (reg : Registry) (reg' : Registry) : Type 0 where
  pub good : IsRegistry reg'
  pub listed : reg'.ring_list ≡ reg.ring_list
  pub rings : reg'.ring_at ≡ reg.ring_at
  pub zones : Untouched reg.config reg'.config

-- The entry was allocated, the reservation of the zone fails, and the heap, as it then is, does not
-- take the entry back.
abbrev pub Panics : Layer → Registry → List ℕ → (count socket_id flags : ℕ) → Type 0
Panics layer reg name count socket_id flags =
    (m : Memory) × (te : ℕ) × (bytes : ℕ) × (e : Errno) × (mcfg : Config) × (malloc layer
        reg.config.memory tailq_entry_size 0
      ≡ (m, te))
    × (get_memsize (rounded_count count flags) ≡ ok bytes)
    × (reserve_aligned layer (record (reg.config) { memory = m }) (ring_prefix ++ name) bytes
          socket_id 0 ring_alignment
        ≡ (err e, mcfg))
    × (free mcfg.memory te ≡ none)

-- The ways in which a creation ends.
abbrev pub Ends :
    Layer → Registry → List ℕ → (count socket_id flags : ℕ) → Option (Result ℕ × Registry) → Type 0
Ends layer reg name count socket_id flags o =
    ((mz : ℕ) × (reg' : Registry) × (o ≡ some (ok mz, reg'))
      × Creates reg name (usable count flags) mz reg')
    ⊎ ((e : Errno) × (reg' : Registry) × (o ≡ some (err e, reg')) × Fails reg reg')
    ⊎ (Panics layer reg name count socket_id flags × (o ≡ none))

Untouched-Fails :
    (reg : Registry) (mcfg : Config)
    → Untouched reg.config mcfg
    → IsRegistry reg
    → Fails reg (record reg { config = mcfg })
Untouched-Fails reg mcfg same v = record {
  good = Untouched-IsRegistry reg mcfg same v;
  listed = refl;
  rings = refl;
  zones = same;
}

module _ (layer : Layer) (word_at : ℕ → ℕ) (reg : Registry) (name : List ℕ)
    (count socket_id flags : ℕ) (size : IsSize count flags) (v : IsRegistry reg) where
  abbrev Ended : Option (Result ℕ × Registry) → Type 0
  Ended o = Ends layer reg name count socket_id flags o

  -- The reservation is made on a configuration that differs in its memory.
  reserved_lem :
      (m : Memory) (te : ℕ) (r : Result ℕ × Config)
      → length name < ring_namesize
      → Outcome (record (reg.config) { memory = m }) (ring_prefix ++ name) r
      → ((e : Errno) (mcfg : Config)
          → r ≡ (err e, mcfg)
          → free mcfg.memory te ≡ none
          → Panics layer reg name count socket_id flags)
      → Ended (zone_reserved word_at reg name count flags te r)
  unfolding zone_reserved
  reserved_lem m te (ok mz, mcfg) short (inl (i, p, w)) k = inl (
    mz,
    added word_at name count flags short size reg te mz mcfg v (here w),
    refl,
    added-Creates word_at name count flags short size reg te mz mcfg v (here w),
  )
    where
      same_index : {j k : ℕ} → ok j ≡ ok k → k ≡ j
      same_index q = cc

      here :
          Reserves (record (reg.config) { memory = m }) (ring_prefix ++ name) i mcfg
          → Reserves reg.config (ring_prefix ++ name) mz mcfg
      here w =
          subst (λ (k : ℕ). Reserves reg.config (ring_prefix ++ name) k mcfg) (same_index p)
            (record {
              good = w.good;
              fresh = w.fresh;
              taken = w.taken;
              named = w.named;
              others = w.others;
              found = w.found;
            })
  reserved_lem m te (err e, mcfg) short (inl (i, p, w)) k = absurd (ground (arith, p))
  reserved_lem m te (ok mz, mcfg) short (inr (e, p, same)) k = absurd (ground (arith, p))
  reserved_lem m te (err e, mcfg) short (inr (e', p, same)) k =
      elim (Option-cases (free mcfg.memory te)) [
        | inl kept ↦ inr (inr (k e mcfg refl kept, rw kept refl))
        | inr (m', ran) ↦ inr (
            inl (
              e,
              record reg { config = record mcfg { memory = m' } },
              rw ran refl,
              Untouched-Fails reg (record mcfg { memory = m' }) same v,
            ))
      ]

  entry_lem :
      (bytes : ℕ) (got : Memory × ℕ)
      → malloc layer reg.config.memory tailq_entry_size 0 ≡ got
      → get_memsize (rounded_count count flags) ≡ ok bytes
      → length name < ring_namesize
      → Ended (entry_allocated layer word_at reg name count bytes socket_id flags got)
  unfolding entry_allocated reserve_aligned
  entry_lem bytes (m, te) got sized short = elim (Bool-cases (te == 0)) [
    | inl h ↦ rw h (
        inr (
          inl (
            enomem,
            with_memory reg m,
            refl,
            Untouched-Fails reg (record (reg.config) { memory = m }) (refl, refl) v,
          )))
    | inr h ↦ rw h (
        let mcfg : Config = record (reg.config) { memory = m } in
        reserved_lem m te
          (reserve_aligned layer mcfg (ring_prefix ++ name) bytes socket_id 0 ring_alignment) short
          (reserve_bounded_lem layer mcfg (ring_prefix ++ name) bytes socket_id 0 ring_alignment 0
            (Untouched-IsZones reg.config mcfg (refl, refl) v.zones))
          (λ e mcfg' ran kept. (m, te, bytes, e, mcfg', got, sized, ran, kept)))
  ]

  sized_lem :
      (bytes : Result ℕ)
      → get_memsize (rounded_count count flags) ≡ bytes
      → Ended (create_sized layer word_at reg name count socket_id flags bytes)
  unfolding create_sized
  sized_lem (err e) same = inr (inl (e, reg, refl, Untouched-Fails reg reg.config (refl, refl) v))
  sized_lem (ok bytes) same = elim (Bool-cases (leb name_size (length (ring_prefix ++ name)))) [
    | inl h ↦
        rw h (inr (inl (enametoolong, reg, refl, Untouched-Fails reg reg.config (refl, refl) v)))
    | inr h ↦ rw h (
        entry_lem bytes (malloc layer reg.config.memory tailq_entry_size 0) refl same
          (ground arith))
  ]

-- In a registry that is in order, the creation of a ring of a size that it is meant to take ends in
-- one of three ways, whatever its name, its socket and the state of the heaps. It returns a ring
-- that is valid, empty, of the capacity asked for, registered behind the others, which are as
-- before, and that a lookup of its name finds. Or it returns an error and leaves the rings, their
-- list and the zones as they were. Or it panics: the list entry was allocated, the reservation of the
-- zone fails on the heaps as they then are, and the heap that it leaves does not take the entry back.
-- In the first two cases the registry stays in order.
pub create_lem :
    (layer : Layer) (word_at : ℕ → ℕ) (reg : Registry) (name : List ℕ) (count socket_id flags : ℕ)
    → IsRegistry reg
    → IsSize count flags
    → Ends layer reg name count socket_id flags
        (ring_create layer word_at reg name count socket_id flags)
unfolding ring_create
create_lem layer word_at reg name count socket_id flags v size =
    sized_lem layer word_at reg name count socket_id flags size v
      (get_memsize (rounded_count count flags)) refl
