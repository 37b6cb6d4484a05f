-- ===== src/Mempool/Populate.antt =====
-- Memory for a pool: `rte_mempool_populate_phy`, `mempool_add_elem`, `rte_mempool_free_memchunks` and
-- the two iterators of lib/librte_mempool/rte_mempool.c. The callback that makes the store (`alloc`)
-- is an argument, and so is what `rte_zmalloc` returned for the header of the chunk (0 for NULL); what
-- `rte_free` and the callbacks of the chunks do is left to them, and the calls are listed.
use rte_demo.Prelude.{
  ℕ, zero, suc, ◌+◌, ◌-◌, ◌*◌, ◌^◌, List, [], ◌∷◌, ◌++◌, Option, none, some, get_or, Bool, true,
  false, ◌&&◌, bit_or, ltb, leb, ◌==◌, if◌then◌else◌,
}
use rte_demo.Word.{add32, sub32, add64, sub64, align_ceil}
use rte_demo.Ring.Types.{Result, ok, err, einval, enospc, enomem}
use rte_demo.Ring.Setup.{has}
use rte_demo.Ring.Transfer.{◌>>=◌}
use rte_demo.Mempool.Store.{Store}
use rte_demo.Mempool.Sizes.{objhdr_size, no_cache_align}
use rte_demo.Mempool.Types.{Pool, Chunk}
pub mod Objs
pub mod Release

-- `MEMPOOL_F_POOL_CREATED`
abbrev pub pool_created : ℕ
pool_created = 16

-- A call of the callback of a chunk with its argument, and of `rte_free` on a header.
pub data FreeCall : Type 0 where
  free_cb : (cb : ℕ) → Chunk → (opaque : ℕ) → FreeCall
  rte_free : (header : ℕ) → FreeCall

-- `if (memhdr->free_cb != NULL)`
abbrev pub callback : Option ℕ → Chunk → List FreeCall
callback none memhdr = []
callback (some cb) memhdr = free_cb cb memhdr memhdr.opaque ∷ []

module _ (store : Store) where
  -- `mempool_add_elem`; the value that the enqueue returns is dropped.
  unfoldable pub mempool_add_elem : Pool store → ℕ → Option (Pool store)
  mempool_add_elem mp obj = do
    (ret, s) ← store.enqueue mp.pool_data (obj ∷ []) 1
    some (record mp {
      elt_list = mp.elt_list ++ (sub64 obj objhdr_size ∷ []);
      populated_size = add32 mp.populated_size 1;
      pool_data = s;
    })

  abbrev pub total_elt_sz : Pool store → ℕ
  total_elt_sz mp = add32 (add32 mp.header_size mp.elt_size) mp.trailer_size

  -- The loop of `rte_mempool_populate_phy`; `none` where the rounds do not suffice.
  unfoldable pub populate_loop :
      (rounds : ℕ) → Pool store → (vaddr len total off i : ℕ) → Option (ℕ × Pool store)
  populate_loop zero mp vaddr len total off i = none
  populate_loop (suc rounds) mp vaddr len total off i =
      let body = do
        let at = add64 off mp.header_size
        mp' ← mempool_add_elem mp (add64 vaddr at)
        populate_loop rounds mp' vaddr len total (add64 at (add32 mp.elt_size mp.trailer_size))
            (add32 i 1)
      in if leb (add64 off total) len && ltb mp.populated_size mp.size then body else some (i, mp)

  -- `off` before the loop.
  unfoldable pub first_offset : ℕ → ℕ → ℕ
  first_offset flags vaddr =
      if has flags no_cache_align
      then sub64 (align_ceil 64 32 vaddr 8) vaddr
      else sub64 (align_ceil 64 32 vaddr 64) vaddr

  -- What follows the loop.
  unfoldable pub chunk_added : Chunk → ℕ → Pool store → Result ℕ × Pool store
  chunk_added memhdr i mp = if i == 0 then (err einval, mp) else (
    ok i,
    record mp { mem_list = mp.mem_list ++ (memhdr ∷ []); nb_mem_chunks = add32 mp.nb_mem_chunks 1 },
  )

  -- The function on a pool whose store is there; `memhdr` is the header as it is filled in.
  unfoldable pub populate_created :
      (rounds : ℕ) → Pool store → (memhdr : Chunk) → Option (Result ℕ × Pool store)
  populate_created rounds mp memhdr =
      let added = do
        (i, mp') ←
            populate_loop rounds mp memhdr.addr memhdr.len (total_elt_sz mp)
              (first_offset mp.flags memhdr.addr) 0
        some (chunk_added memhdr i mp')
      in if leb mp.size mp.populated_size
        then some (err enospc, mp)
        else if memhdr.header == 0
        then some (err enomem, mp)
        else added

  -- After `rte_mempool_ops_alloc`.
  unfoldable pub populate_alloced :
      (rounds : ℕ)
      → (memhdr : Chunk) → Result (Unit {0}) × Pool store
      → Option (Result ℕ × Pool store)
  populate_alloced rounds memhdr (err e, mp) = some (err e, mp)
  populate_alloced rounds memhdr (ok u, mp) =
      populate_created rounds (record mp { flags = bit_or mp.flags pool_created }) memhdr

  unfoldable pub populate_phy :
      (alloc : Pool store → Result (Unit {0}) × Pool store)
      → (rounds : ℕ) → Pool store
      → (vaddr len : ℕ) → (cb : Option ℕ) → (opaque header : ℕ) → Option (Result ℕ × Pool store)
  populate_phy alloc rounds mp vaddr len cb opaque header =
      let memhdr : Chunk = record {
        header = header;
        addr = vaddr;
        len = len;
        free_cb = cb;
        opaque = opaque;
      } in
      if has mp.flags pool_created
      then populate_created rounds mp memhdr
      else populate_alloced rounds memhdr (alloc mp)

  -- `rte_mempool_free_memchunks`: first the objects, of which the headers are left in `headers`;
  -- `elt` is the content of the local variable.
  unfoldable pub release_objs : List ℕ → (elt : ℕ) → Pool store → Option (Pool store)
  release_objs [] elt mp = some mp
  release_objs (hdr ∷ headers) elt mp = do
    (ret, table, s) ← store.dequeue mp.pool_data (elt ∷ []) 1
    let mp' : Pool store = record mp {
      pool_data = s;
      elt_list = headers;
      populated_size = sub32 mp.populated_size 1;
    }
    release_objs headers (get_or table 0 elt) mp'

  -- Then the chunks: the calls that are made, and the pool.
  unfoldable pub release_chunks :
      List Chunk → List FreeCall → Pool store → List FreeCall × Pool store
  release_chunks [] calls mp = (calls, mp)
  release_chunks (memhdr ∷ chunks) calls mp =
      release_chunks chunks
        ((calls ++ callback memhdr.free_cb memhdr) ++ (rte_free memhdr.header ∷ []))
        (record mp { mem_list = chunks; nb_mem_chunks = sub32 mp.nb_mem_chunks 1 })

  unfoldable pub free_memchunks : (elt : ℕ) → Pool store → Option (List FreeCall × Pool store)
  free_memchunks elt mp = do
    mp' ← release_objs mp.elt_list elt mp
    some (release_chunks mp'.mem_list [] mp')

  -- `rte_mempool_obj_iter` and `rte_mempool_mem_iter`, with a callback that changes a state.
  module _ {S : Type 0} where
    unfoldable pub iter_objs : (S → ℕ → ℕ → S) → List ℕ → ℕ → S → S × ℕ
    iter_objs obj_cb [] n s = (s, n)
    iter_objs obj_cb (hdr ∷ headers) n s =
        iter_objs obj_cb headers (add32 n 1) (obj_cb s (add64 hdr objhdr_size) n)

    unfoldable pub obj_iter : Pool store → (S → ℕ → ℕ → S) → S → S × ℕ
    obj_iter mp obj_cb s = iter_objs obj_cb mp.elt_list 0 s

    unfoldable pub iter_chunks : (S → Chunk → ℕ → S) → List Chunk → ℕ → S → S × ℕ
    iter_chunks mem_cb [] n s = (s, n)
    iter_chunks mem_cb (hdr ∷ chunks) n s = iter_chunks mem_cb chunks (add32 n 1) (mem_cb s hdr n)

    unfoldable pub mem_iter : Pool store → (S → Chunk → ℕ → S) → S → S × ℕ
    mem_iter mp mem_cb s = iter_chunks mem_cb mp.mem_list 0 s
