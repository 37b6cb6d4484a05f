-- ===== src/Hugepage/Types.antt =====
-- The data of lib/common/eal_hugepages.h and lib/common/eal_internal_cfg.h.
use rte_demo.Prelude.{ℕ, List, [], Option, Bool}

-- `struct hugepage_file`; an address 0 stands for NULL. The path is that of the page's file.
pub record HugepageFile : Type 0 where
  pub orig_va : ℕ
  pub final_va : ℕ
  pub physaddr : ℕ
  pub size : ℕ
  pub socket_id : ℕ
  pub file_id : ℕ
  pub memseg_id : ℕ
  pub filepath : List ℕ

-- What `memset` leaves of an entry.
abbrev pub no_page : HugepageFile
no_page = record {
  orig_va = 0;
  final_va = 0;
  physaddr = 0;
  size = 0;
  socket_id = 0;
  file_id = 0;
  memseg_id = 0;
  filepath = [];
}

-- `struct hugepage_info`, without the descriptor of the lock; `hugedir` is `none` for NULL.
-- `num_pages` has an entry for each socket.
pub record HugepageInfo : Type 0 where
  pub hugepage_sz : ℕ
  pub hugedir : Option (List ℕ)
  pub num_pages : List ℕ

-- The members of `struct internal_config` that the functions read.
pub record InternalConfig : Type 0 where
  pub memory : ℕ
  pub force_nchannel : ℕ
  pub force_nrank : ℕ
  pub force_sockets : Bool
  pub socket_mem : List ℕ
  pub hugepage_info : List HugepageInfo

-- The segment of `struct rte_memseg` as the layer fills it.
pub record Segment : Type 0 where
  pub iova : ℕ
  pub addr : ℕ
  pub len : ℕ
  pub hugepage_sz : ℕ
  pub socket_id : ℕ

abbrev pub no_segment : Segment
no_segment = record { iova = 0; addr = 0; len = 0; hugepage_sz = 0; socket_id = 0 }
