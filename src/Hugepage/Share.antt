-- ===== src/Hugepage/Share.antt =====
-- How many pages of each size a socket gives: `calc_num_pages_per_socket` of
-- lib/linuxapp/eal/eal_memory.c, and the sums it uses. The tables of pages have an entry for each
-- socket, and `hp_used` one for each size.
use rte_demo.Prelude.{
  ℕ, zero, suc, ◌+◌, ◌*◌, ◌/◌, ◌%◌, ◌^◌, List, [], ◌∷◌, replicate, get_or, set, Option, none, some,
  Bool, true, false, ltb, min, ◌==◌, if◌then◌else◌,
}
use rte_demo.Word.{add32, add64, sub64}
use rte_demo.Malloc.Sockets.{max_numa_nodes}
use rte_demo.Hugepage.Types.{HugepageInfo, InternalConfig}

abbrev pub mul64 : ℕ → ℕ → ℕ
mul64 a b = a * b % 2 ^ 64

abbrev pub has_dir : HugepageInfo → Bool
has_dir info = elim (info.hugedir) [ none ↦ false | some dir ↦ true ]

-- `get_socket_mem_size`
unfoldable pub get_socket_mem_size : List HugepageInfo → (socket : ℕ) → ℕ
get_socket_mem_size [] socket = 0
get_socket_mem_size (info ∷ infos) socket =
    let size = mul64 info.hugepage_sz (get_or info.num_pages socket 0) in
    let rest = get_socket_mem_size infos socket in if has_dir info then add64 size rest else rest

-- The inner loop of `eal_get_hugepage_mem_size`, and the function.
unfoldable pub sum_sockets : (hugepage_sz : ℕ) → List ℕ → ℕ
sum_sockets hugepage_sz [] = 0
sum_sockets hugepage_sz (n ∷ num_pages) =
    add64 (mul64 hugepage_sz n) (sum_sockets hugepage_sz num_pages)

unfoldable pub get_hugepage_mem_size : List HugepageInfo → ℕ
unfolding sum_sockets
get_hugepage_mem_size [] = 0
get_hugepage_mem_size (info ∷ infos) =
    let size = sum_sockets info.hugepage_sz info.num_pages in
    let rest = get_hugepage_mem_size infos in if has_dir info then add64 size rest else rest

-- What the function reads of the cores: the sockets of the enabled ones, and `rte_lcore_count`.
pub record Cores : Type 0 where
  pub sockets : List ℕ
  pub lcore_count : ℕ

-- "Compute number of cores per socket"
unfoldable pub cpu_per_socket : List ℕ → List ℕ → List ℕ
cpu_per_socket [] cpus = cpus
cpu_per_socket (socket ∷ sockets) cpus =
    cpu_per_socket sockets (set cpus socket (add32 (get_or cpus socket 0) 1))

-- "Automatically spread requested memory amongst detected sockets": the loop over `n` sockets, with
-- the amounts that it sets and the size that is left.
unfoldable pub spread_memory :
    InternalConfig → Cores → (n socket total_size : ℕ) → List ℕ → List ℕ × ℕ
spread_memory config cores zero socket total_size memory = (memory, total_size)
spread_memory config cores (suc n) socket total_size memory =
    let cpus = get_or (cpu_per_socket cores.sockets (replicate max_numa_nodes 0)) socket 0 in
    let share = mul64 config.memory cpus / cores.lcore_count in
    let default_size = min share (get_socket_mem_size config.hugepage_info socket) in
    let rest =
      spread_memory config cores n (socket + 1) (sub64 total_size default_size)
        (set memory socket default_size) in
    if total_size == 0 then (memory, total_size) else rest

-- "If some memory is remaining, try to allocate it by getting all available memory from sockets"
unfoldable pub take_remaining : InternalConfig → (n socket total_size : ℕ) → List ℕ → List ℕ × ℕ
take_remaining config zero socket total_size memory = (memory, total_size)
take_remaining config (suc n) socket total_size memory =
    let had = get_or memory socket 0 in
    let default_size =
      min (sub64 (get_socket_mem_size config.hugepage_info socket) had) total_size in
    let rest =
      take_remaining config n (socket + 1) (sub64 total_size default_size)
        (set memory socket (add64 had default_size)) in
    if total_size == 0 then (memory, total_size) else rest

-- "if specific memory amounts per socket weren't requested"
unfoldable pub default_memory : InternalConfig → Cores → List ℕ → List ℕ
unfolding spread_memory take_remaining
default_memory config cores memory =
    let (spread, left) = spread_memory config cores max_numa_nodes 0 config.memory memory in
    let taken = take_remaining config max_numa_nodes 0 left spread in
    if config.force_sockets then memory else taken.0

-- "remaining_mem": what the smaller pages of the socket come to.
unfoldable pub remaining_mem : (socket : ℕ) → List HugepageInfo → ℕ
remaining_mem socket [] = 0
remaining_mem socket (info ∷ infos) =
    add64 (mul64 info.hugepage_sz (get_or info.num_pages socket 0)) (remaining_mem socket infos)

-- The pages used, the memory of the socket and in all that is still wanted, and the number of pages.
pub record Share : Type 0 where
  pub hp_used : List HugepageInfo
  pub memory : ℕ
  pub total_mem : ℕ
  pub total_num_pages : ℕ

abbrev pub use_pages : HugepageInfo → HugepageInfo → (socket n : ℕ) → HugepageInfo
use_pages u info socket n = record u {
  hugedir = info.hugedir;
  num_pages = set u.num_pages socket n;
}

abbrev pub with_entry : HugepageInfo → Share → Share
with_entry u s = record s { hp_used = u ∷ s.hp_used }

-- The loop over the sizes for one socket.
unfoldable pub share_socket :
    (socket : ℕ)
    → List HugepageInfo
    → List HugepageInfo
    → (memory total_mem total_num_pages : ℕ) → Share
unfolding remaining_mem
share_socket socket [] used memory total_mem total_num_pages = record {
  hp_used = used;
  memory = memory;
  total_mem = total_mem;
  total_num_pages = total_num_pages;
}
share_socket socket (info ∷ infos) [] memory total_mem total_num_pages = record {
  hp_used = [];
  memory = memory;
  total_mem = total_mem;
  total_num_pages = total_num_pages;
}
share_socket socket (info ∷ infos) (u ∷ used) memory total_mem total_num_pages =
    let available = get_or info.num_pages socket 0 in
    let n = min (memory / info.hugepage_sz) available in
    let cur_mem = mul64 n u.hugepage_sz in
    let memory' = sub64 memory cur_mem in
    let total' = sub64 total_mem cur_mem in
    let pages' = add32 total_num_pages n in
    let one_more = min memory' info.hugepage_sz in
    let rest =
      with_entry (use_pages u info socket n)
        (share_socket socket infos used memory' total' pages') in
    if memory == 0
    then record {
      hp_used = u ∷ used;
      memory = memory;
      total_mem = total_mem;
      total_num_pages = total_num_pages;
    }
    else if memory' == 0
    then record {
      hp_used = use_pages u info socket n ∷ used;
      memory = memory';
      total_mem = total';
      total_num_pages = pages';
    }
    else if n == available
    then rest
    else if ltb (remaining_mem socket infos) memory'
    then record {
      hp_used = use_pages u info socket (add32 n 1) ∷ used;
      memory = sub64 memory' one_more;
      total_mem = sub64 total' one_more;
      total_num_pages = add32 pages' 1;
    }
    else rest

-- The loop over `n` sockets: the pages used and their number, or `none` for -1; `memory` is the
-- amounts that the sockets are to give.
unfoldable pub share_sockets :
    List HugepageInfo
    → (n socket : ℕ) → List ℕ
    → List HugepageInfo
    → (total_mem total_num_pages : ℕ) → Option (List HugepageInfo × ℕ)
unfolding share_socket
share_sockets infos zero socket memory used total_mem total_num_pages =
    if total_mem == 0 then some (used, total_num_pages) else none
share_sockets infos (suc n) socket memory used total_mem total_num_pages =
    let s = share_socket socket infos used (get_or memory socket 0) total_mem total_num_pages in
    let rest = share_sockets infos n (socket + 1) memory s.hp_used s.total_mem s.total_num_pages in
    if total_mem == 0 then some (used, total_num_pages) else if s.memory == 0 then rest else none

-- `calc_num_pages_per_socket`. The number of pages is a word; in the source it is an `int`, which from
-- 2 ^ 31 pages on the caller would take for a failure.
unfoldable pub calc_num_pages_per_socket :
    InternalConfig
    → Cores
    → List ℕ
    → List HugepageInfo
    → List HugepageInfo
    → Option (List HugepageInfo × ℕ)
unfolding default_memory share_sockets
calc_num_pages_per_socket config cores memory [] hp_used = none
calc_num_pages_per_socket config cores memory (info ∷ infos) hp_used =
    share_sockets (info ∷ infos) max_numa_nodes 0 (default_memory config cores memory) hp_used
      config.memory 0
