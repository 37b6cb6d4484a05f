-- ===== src/Mempool/Populate/Objs.antt =====
-- Where the objects of a chunk stand, and that they are free afterwards.
use mathlib.Core.List.{append-nil, append_assoc}
use rte_demo.Prelude.{
  ℕ, zero, suc, ◌+◌, ◌-◌, ◌^◌, ◌≤◌, ◌<◌, ◌≡◌, refl, sym, ap, ◌∙◌, ◌⊎◌, inl, inr, arith, List, [],
  ◌∷◌, ◌++◌, length, some, Bool-cases, true, false, ◌&&◌, ltb, leb, length-append,
}
use rte_demo.Word.{add32, add64, sub64}
use rte_demo.Mempool.Store.{Store, Laws}
use rte_demo.Mempool.Sizes.{objhdr_size}
use rte_demo.Mempool.Types.{Pool}
use rte_demo.Mempool.Populate.{mempool_add_elem, populate_loop}

-- `n` addresses from `base` on, `step` apart.
abbrev pub placed : (base step n : ℕ) → List ℕ
placed base step zero = []
placed base step (suc n) = base ∷ placed (base + step) step n

-- `n` steps from `base` on.
abbrev pub behind : (base step n : ℕ) → ℕ
behind base step zero = base
behind base step (suc n) = behind (base + step) step n

module _ (store : Store) (laws : Laws store) where
  open laws use {IsGood, held, capacity, enqueue_room}

  added_run :
      (mp : Pool store) (obj : ℕ)
      → IsGood mp.pool_data
      → length (held mp.pool_data) < capacity mp.pool_data
      → (s : store.Data) × (mempool_add_elem store mp obj
          ≡ some (record mp {
            elt_list = mp.elt_list ++ (sub64 obj objhdr_size ∷ []);
            populated_size = add32 mp.populated_size 1;
            pool_data = s;
          }))
        × IsGood s
        × (held s ≡ held mp.pool_data ++ (obj ∷ []))
        × (capacity s ≡ capacity mp.pool_data)
  unfolding mempool_add_elem
  added_run mp obj g room =
      let (s, ran, g', h, c) =
        enqueue_room mp.pool_data (obj ∷ []) 1 g (omega arith) (omega arith) in
      (s, rw ran refl, g', h, c)

  -- What the loop leaves after `n` objects of `step` bytes, the first one at `base`.
  pub record Filled (mp : Pool store) (base step n : ℕ) (mp' : Pool store) : Type 0 where
    pub good : IsGood mp'.pool_data
    pub free : held mp'.pool_data ≡ held mp.pool_data ++ placed base step n
    pub listed : mp'.elt_list ≡ mp.elt_list ++ placed (base - objhdr_size) step n
    pub counted : mp'.populated_size ≡ mp.populated_size + n
    pub limit : capacity mp'.pool_data ≡ capacity mp.pool_data
    pub sizes :
        (mp'.size ≡ mp.size)
        × (mp'.header_size ≡ mp.header_size)
        × (mp'.elt_size ≡ mp.elt_size)
        × (mp'.trailer_size ≡ mp.trailer_size)

  nothing_Filled :
      (mp : Pool store) (base step : ℕ) → IsGood mp.pool_data → Filled mp base step 0 mp
  nothing_Filled mp base step g = record {
    good = g;
    free = sym (append-nil (held mp.pool_data));
    listed = sym (append-nil mp.elt_list);
    counted = omega arith;
    limit = refl;
    sizes = (refl, refl, refl, refl);
  }

  -- One object in front.
  next_Filled :
      (mp mp1 mp' : Pool store) (base base1 step n : ℕ)
      → base1 ≡ base + step
      → objhdr_size ≤ base
      → held mp1.pool_data ≡ held mp.pool_data ++ (base ∷ [])
      → mp1.elt_list ≡ mp.elt_list ++ ((base - objhdr_size) ∷ [])
      → mp1.populated_size ≡ mp.populated_size + 1
      → capacity mp1.pool_data ≡ capacity mp.pool_data
      → (mp1.size ≡ mp.size)
        × (mp1.header_size ≡ mp.header_size)
        × (mp1.elt_size ≡ mp.elt_size)
        × (mp1.trailer_size ≡ mp.trailer_size)
      → Filled mp1 base1 step n mp'
      → Filled mp base step (suc n) mp'
  next_Filled mp mp1 mp' base base1 step n e h p q c limit (s, t, u, w) v = record {
    good = v.good;
    free =
        v.free
        ∙ rw (p, e) (append_assoc (held mp.pool_data) (base ∷ []) (placed (base + step) step n));
    listed =
        v.listed
        ∙ rw (q, e, moved)
            (append_assoc mp.elt_list ((base - objhdr_size) ∷ [])
              (placed (base - objhdr_size + step) step n));
    counted = omega (arith, v.counted, c);
    limit = v.limit ∙ limit;
    sizes = (v.sizes.0 ∙ s, v.sizes.1 ∙ t, v.sizes.2 ∙ u, v.sizes.3 ∙ w);
  }
    where
      moved : base + step - objhdr_size ≡ base - objhdr_size + step
      moved = omega (arith, h)

  -- What the loop needs: a pool whose store has room for all objects, and memory whose addresses do
  -- not wrap.
  pub record Ready (mp : Pool store) (vaddr len total off i : ℕ) : Type 0 where
    pub good : IsGood mp.pool_data
    pub room : length (held mp.pool_data) + mp.size ≤ capacity mp.pool_data + mp.populated_size
    pub populated : mp.populated_size ≤ mp.size
    pub word : mp.size < 2 ^ 32
    pub index : i ≤ mp.populated_size
    pub header : objhdr_size ≤ mp.header_size
    pub sum : total ≡ mp.header_size + mp.elt_size + mp.trailer_size
    pub small : total < 2 ^ 32
    pub offset : off < 2 ^ 62
    pub memory : vaddr + len < 2 ^ 62

  -- What it leaves.
  pub record Populated (mp : Pool store) (vaddr len total off n : ℕ) (mp' : Pool store)
      : Type 0 where
    pub filled : Filled mp (vaddr + off + mp.header_size) total n mp'
    pub inside : (n ≡ 0) ⊎ (behind off total n ≤ len)
    pub complete : (mp'.populated_size ≡ mp.size) ⊎ (len < behind off total n + total)

  -- One round.
  module _ {mp : Pool store} {vaddr len total off i : ℕ} (v : Ready mp vaddr len total off i) where
    start : add64 off total ≡ off + total
    start = omega (arith, v.offset, v.small)

    none_more : i + 0 ≡ i
    none_more = omega arith

    at : add64 off mp.header_size ≡ off + mp.header_size
    at = omega (arith, v.offset, v.small, v.sum)

    obj : add64 vaddr (off + mp.header_size) ≡ vaddr + (off + mp.header_size)
    obj = omega (arith, v.offset, v.small, v.sum, v.memory)

    behind_it : add64 (off + mp.header_size) (add32 mp.elt_size mp.trailer_size) ≡ off + total
    behind_it = omega (arith, v.offset, v.small, v.sum)

    below :
        (leb (off + total) len && ltb mp.populated_size mp.size) ≡ true
        → mp.populated_size < mp.size
    below e = ground arith

    index : (leb (off + total) len && ltb mp.populated_size mp.size) ≡ true → add32 i 1 ≡ i + 1
    index e = omega (arith, below e, v.index, v.word)

    later : (n : ℕ) → i + suc n ≡ i + 1 + n
    later n = omega arith

    abbrev next : store.Data → Pool store
    next s = record mp {
      elt_list = mp.elt_list ++ (sub64 (vaddr + (off + mp.header_size)) objhdr_size ∷ []);
      populated_size = add32 mp.populated_size 1;
      pool_data = s;
    }

    one_more :
        (leb (off + total) len && ltb mp.populated_size mp.size) ≡ true
        → add32 mp.populated_size 1 ≡ mp.populated_size + 1
    one_more e = omega (arith, below e, v.word)

    stop :
        (leb (off + total) len && ltb mp.populated_size mp.size) ≡ false
        → Populated mp vaddr len total off 0 mp
    stop e = record {
      filled = nothing_Filled mp (vaddr + off + mp.header_size) total v.good;
      inside = inl refl;
      complete = elim (Bool-cases (leb (off + total) len)) [
        | inl f ↦ inl (ground (arith, v.populated))
        | inr f ↦ inr (ground arith)
      ];
    }

    next-Ready :
        (s : store.Data)
        → (leb (off + total) len && ltb mp.populated_size mp.size) ≡ true
        → IsGood s
        → held s ≡ held mp.pool_data ++ ((vaddr + (off + mp.header_size)) ∷ [])
        → capacity s ≡ capacity mp.pool_data
        → Ready (next s) vaddr len total (off + total) (i + 1)
    next-Ready s e g free limit = record {
      good = g;
      room = omega (
        arith,
        v.room,
        one_more e,
        limit,
        ap length free,
        length-append (held mp.pool_data) ((vaddr + (off + mp.header_size)) ∷ []),
      );
      populated = omega (arith, one_more e, below e);
      word = v.word;
      index = omega (arith, one_more e, v.index);
      header = v.header;
      sum = v.sum;
      small = v.small;
      offset = ground (arith, v.memory);
      memory = v.memory;
    }

    went :
        (leb (off + total) len && ltb mp.populated_size mp.size) ≡ true
        → (s : store.Data) → held s ≡ held mp.pool_data ++ ((vaddr + (off + mp.header_size)) ∷ [])
        → capacity s ≡ capacity mp.pool_data
        → (n : ℕ) (mp' : Pool store) → Populated (next s) vaddr len total (off + total) n mp'
        → Populated mp vaddr len total off (suc n) mp'
    went e s free limit n mp' w = record {
      filled =
          next_Filled mp (next s) mp' (vaddr + off + mp.header_size)
            (vaddr + (off + total) + mp.header_size) total n (omega arith) (omega (arith, v.header))
            (free ∙ ap (λ (t : ℕ). held mp.pool_data ++ (t ∷ [])) same)
            (ap (λ (t : ℕ). mp.elt_list ++ (t ∷ [])) header) (one_more e) limit
            (refl, refl, refl, refl) w.filled;
      inside = elim w.inside [ inl z ↦ inr (rw z (ground arith)) | inr z ↦ inr z ];
      complete = w.complete;
    }
      where
        same : vaddr + (off + mp.header_size) ≡ vaddr + off + mp.header_size
        same = omega arith

        header :
            sub64 (vaddr + (off + mp.header_size)) objhdr_size
            ≡ vaddr + off + mp.header_size - objhdr_size
        header = omega (arith, v.header, v.memory, v.offset, v.small, v.sum)

  -- With more rounds than objects are missing, the loop ends, with as many objects as fit into the
  -- chunk or are missing in the pool.
  pub populate_loop_lem :
      (rounds : ℕ) (mp : Pool store) (vaddr len total off i : ℕ)
      → mp.size < mp.populated_size + rounds
      → Ready mp vaddr len total off i
      → (n : ℕ) × (mp' : Pool store) × (populate_loop store rounds mp vaddr len total off i
          ≡ some (i + n, mp'))
        × Populated mp vaddr len total off n mp'
  unfolding populate_loop
  populate_loop_lem zero mp vaddr len total off i h v = absurd (omega (arith, v.populated))
  populate_loop_lem (suc rounds) mp vaddr len total off i h v =
      elim (Bool-cases (leb (off + total) len && ltb mp.populated_size mp.size)) [
        | inr e ↦ (0, mp, rw (start v, e, none_more v) refl, stop v e)
        | inl e ↦
            let (s, ran, g, free, limit) =
              added_run mp (vaddr + (off + mp.header_size)) v.good (ground (arith, v.room)) in
            let (n, mp', more, w) =
              populate_loop_lem rounds (next v s) vaddr len total (off + total) (i + 1)
                (omega (arith, h, one_more v e)) (next-Ready v s e g free limit) in
            (
              suc n,
              mp',
              rw (start v, e, at v, obj v, ran, behind_it v, index v e, later v n) more,
              went v e s free limit n mp' w,
            )
      ]
