-- ===== src/Mempool/Populate/Release.antt =====
-- A pool gives back all its objects and all its chunks.
use mathlib.Core.List.{append-nil, append_assoc}
use rte_demo.Prelude.{
  ℕ, ◌^◌, ◌<◌, ◌≡◌, refl, ap, ◌∙◌, arith, List, [], ◌∷◌, ◌++◌, get_or, length, length-drop, Option,
  none, some,
}
use rte_demo.Word.{sub32}
use rte_demo.Ring.Counts.{length-nil}
use rte_demo.Mempool.Store.{Store, Laws}
use rte_demo.Mempool.Types.{Pool, Chunk}
use rte_demo.Mempool.Populate.{
  FreeCall, free_cb, rte_free, callback, release_objs, release_chunks, free_memchunks,
}

-- The calls that are due for the chunks, before others.
abbrev pub due_for : Option ℕ → Chunk → List FreeCall → List FreeCall
due_for none memhdr calls = rte_free memhdr.header ∷ calls
due_for (some cb) memhdr calls = free_cb cb memhdr memhdr.opaque ∷ rte_free memhdr.header ∷ calls

abbrev pub due : List Chunk → List FreeCall
due [] = []
due (memhdr ∷ chunks) = due_for memhdr.free_cb memhdr (due chunks)

due_for-callback :
    (cb : Option ℕ) (memhdr : Chunk) (calls : List FreeCall)
    → callback cb memhdr ++ (rte_free memhdr.header ∷ calls) ≡ due_for cb memhdr calls
due_for-callback none memhdr calls = refl
due_for-callback (some cb) memhdr calls = refl

module _ (store : Store) (laws : Laws store) where
  open laws use {IsGood, held, capacity, dequeue_enough}

  -- What is left of a pool.
  pub record Drained (mp mp' : Pool store) : Type 0 where
    pub good : IsGood mp'.pool_data
    pub free : held mp'.pool_data ≡ []
    pub no_objs : mp'.elt_list ≡ []
    pub none_populated : mp'.populated_size ≡ 0
    pub limit : capacity mp'.pool_data ≡ capacity mp.pool_data
    pub same : (mp'.mem_list ≡ mp.mem_list) × (mp'.nb_mem_chunks ≡ mp.nb_mem_chunks)

  release_objs_lem :
      (headers : List ℕ) (elt : ℕ) (mp : Pool store)
      → IsGood mp.pool_data
      → length (held mp.pool_data) ≡ length headers
      → mp.populated_size ≡ length headers
      → mp.populated_size < 2 ^ 32
      → mp.elt_list ≡ headers
      → (mp' : Pool store) × (release_objs store headers elt mp ≡ some mp') × Drained mp mp'
  unfolding release_objs
  release_objs_lem [] elt mp g h p w e = (
    mp,
    refl,
    record {
      good = g;
      free = length-nil (held mp.pool_data) h;
      no_objs = e;
      none_populated = p;
      limit = refl;
      same = (refl, refl);
    },
  )
  release_objs_lem (hdr ∷ headers) elt mp g h p w e =
      let (table, s, ran, g', t, l, rest, c) =
        dequeue_enough mp.pool_data (elt ∷ []) 1 g (omega arith) (omega arith) in
      let (mp', more, d) =
        release_objs_lem headers (get_or table 0 elt)
          (record mp {
            pool_data = s;
            elt_list = headers;
            populated_size = sub32 mp.populated_size 1;
          })
          g' (omega (arith, ap length rest, length-drop 1 (held mp.pool_data))) (omega arith)
          (omega arith) refl in
      (
        mp',
        rw ran more,
        record {
          good = d.good;
          free = d.free;
          no_objs = d.no_objs;
          none_populated = d.none_populated;
          limit = d.limit ∙ c;
          same = d.same;
        },
      )

  -- What the second loop does not change.
  abbrev pub SameObjs : Pool store → Pool store → Type 0
  SameObjs mp mp' =
      (mp'.pool_data ≡ mp.pool_data)
      × (mp'.elt_list ≡ mp.elt_list)
      × (mp'.populated_size ≡ mp.populated_size)

  release_chunks_lem :
      (chunks : List Chunk) (calls : List FreeCall) (mp : Pool store)
      → mp.mem_list ≡ chunks
      → mp.nb_mem_chunks ≡ length chunks
      → mp.nb_mem_chunks < 2 ^ 32
      → (mp' : Pool store) × (release_chunks store chunks calls mp ≡ (calls ++ due chunks, mp'))
        × (mp'.mem_list ≡ [])
        × (mp'.nb_mem_chunks ≡ 0)
        × SameObjs mp mp'
  unfolding release_chunks
  release_chunks_lem [] calls mp e n w = (mp, rw (append-nil calls) refl, e, n, (refl, refl, refl))
  release_chunks_lem (memhdr ∷ chunks) calls mp e n w =
      let own = callback memhdr.free_cb memhdr in
      let (mp', ran, gone, no_chunks, same) =
        release_chunks_lem chunks ((calls ++ own) ++ (rte_free memhdr.header ∷ []))
          (record mp { mem_list = chunks; nb_mem_chunks = sub32 mp.nb_mem_chunks 1 }) refl
          (omega arith) (omega arith) in
      (
        mp',
        ran
            ∙ ap (λ (t : List FreeCall). (t, mp'))
                (append_assoc (calls ++ own) (rte_free memhdr.header ∷ []) (due chunks)
                  ∙ append_assoc calls own (rte_free memhdr.header ∷ due chunks)
                  ∙ ap (λ (t : List FreeCall). calls ++ t)
                      (due_for-callback memhdr.free_cb memhdr (due chunks))),
        gone,
        no_chunks,
        same,
      )

  -- From a pool whose objects are all in its store, and with the counts right, the call ends. For each
  -- chunk, in their order, it calls the callback with its argument if there is one, and then rte_free
  -- on the header; there are no other such calls. No object and no chunk is left, and the store is
  -- empty.
  pub free_memchunks_lem :
      (mp : Pool store) (elt : ℕ)
      → IsGood mp.pool_data
      → length (held mp.pool_data) ≡ length mp.elt_list
      → mp.populated_size ≡ length mp.elt_list
      → mp.populated_size < 2 ^ 32
      → mp.nb_mem_chunks ≡ length mp.mem_list
      → mp.nb_mem_chunks < 2 ^ 32
      → (mp' : Pool store) × (free_memchunks store elt mp ≡ some (due mp.mem_list, mp'))
        × (held mp'.pool_data ≡ [])
        × (mp'.elt_list ≡ [])
        × (mp'.populated_size ≡ 0)
        × (mp'.mem_list ≡ [])
        × (mp'.nb_mem_chunks ≡ 0)
  unfolding free_memchunks
  free_memchunks_lem mp elt g h p w n k =
      let (mp1, ran, d) = release_objs_lem mp.elt_list elt mp g h p w refl in
      let (mp2, more, gone, no_chunks, same) =
        release_chunks_lem mp1.mem_list [] mp1 refl (rw (d.same.0, d.same.1) n) (rw (d.same.1) k) in
      (
        mp2,
        rw ran (ap some (more ∙ ap (λ (t : List Chunk). (due t, mp2)) d.same.0)),
        ap held same.0 ∙ d.free,
        same.1 ∙ d.no_objs,
        same.2 ∙ d.none_populated,
        gone,
        no_chunks,
      )
