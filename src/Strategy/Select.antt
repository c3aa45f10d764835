-- ===== src/Strategy/Select.antt =====
-- plugins/smap/src/user/strategy/separate_strategy.c: `BuildSelectKMlistAddr`, `BuildPairMlist` and
-- `PairMigrationStrategy`, which fill the migration lists of one process from its scanned pages.
-- `calloc` and the forbidden nodes are arguments.
pub mod Consistent
pub mod Frame
pub mod Exact
pub mod Sound
pub mod PairLoop
pub mod Bounded
pub mod Budget
use ubturbo.Limits.{max_nodes, local_numa_num, remote_numa_num}
use ubturbo.Prelude.{
  suc, ◌%◌, ◌-◌, ◌^◌, [], ℕ, ◌+◌, ◌∷◌, some, ◌++◌, Bool, Option, none, zero, List, leb,
  if◌then◌else◌, ltb, ◌==◌, length, update, min, ◌||◌,
}
use ubturbo.Errno.{Status, done, fail, einval, enomem}
use ubturbo.Strategy.Actc.{ActcData, SelectionMode, select_top_k, select_bottom_k}
use ubturbo.Strategy.Threshold.{find_threshold}
use ubturbo.Strategy.Collect.{Collected, collect_pages_4k, collect_pages_vm}

pub data PidType : Type 0 where
  process_type vm_type : PidType

pub data UbBwRestrict : Type 0 where
  ub_bw_normal ub_bw_swap_stop : UbBwRestrict

-- What the scan left for one node: `actcLen`, `actcData` (none for NULL), `actCount.freqBuckets` and
-- `selectedBuckets`.
pub record ScanNode : Type 0 where
  pub actc_len : ℕ
  pub actc_data : Option (List ActcData)
  pub freq_buckets : ℕ → ℕ
  pub selected_buckets : ℕ → ℕ

-- `nr` and `addr` of `struct MigList`; the positions stand for the first `nr` words of the buffer.
pub record MigList : Type 0 where
  pub nr : ℕ
  pub addr : Option (List ℕ)

-- What the strategy writes: the scan data by node, the lists by source and destination, and the
-- pages already taken from each node.
pub record Work : Type 0 where
  pub scan : ℕ → ScanNode
  pub mlist : ℕ → ℕ → MigList
  pub numa_offset : ℕ → ℕ

-- What the strategy reads.
pub record Params : Type 0 where
  pub pid_type : PidType
  pub nr_local_numa : ℕ
  pub nr_migrate_pages : ℕ → ℕ → ℕ
  pub ub_bw_restrict : ℕ → UbBwRestrict
  pub is_node_forbidden : ℕ → Bool
  pub can_alloc : ℕ → ℕ → Bool

abbrev pub set_list : Work → ℕ → ℕ → MigList → Work
set_list w from to l = record w { mlist = update w.mlist from (update (w.mlist from) to l) }

-- `freqBuckets - selectedBuckets`, not below 0.
abbrev pub remain_buckets : ScanNode → ℕ → ℕ
remain_buckets n f =
    if ltb (n.selected_buckets f) (n.freq_buckets f)
    then n.freq_buckets f - n.selected_buckets f
    else 0

-- The threshold and the collection pass of the process type.
unfoldable pub collect_pages :
    PidType → SelectionMode → Bool → ℕ → ScanNode → List ActcData → Collected
unfolding find_threshold collect_pages_4k collect_pages_vm
collect_pages pid_type mode from_local nr_mig n ps =
    let (threshold, take) = find_threshold mode nr_mig (remain_buckets n) in
    elim pid_type [
      | vm_type ↦ collect_pages_vm mode from_local nr_mig threshold ps take n.selected_buckets
      | process_type ↦ collect_pages_4k mode from_local nr_mig threshold ps take n.selected_buckets
    ]

-- The end of `BuildSelectKMlistAddr`, from the collection on.
abbrev pub store_collected : Work → ℕ → ℕ → ScanNode → Collected → Work
store_collected w from to n c =
    let w' = set_list w from to (record { nr = length c.addr; addr = some c.addr }) in
    record w' {
      scan =
          update w.scan from (record n { actc_data = some c.pages; selected_buckets = c.selected });
    }

-- The part of `BuildSelectKMlistAddr` behind `nrMig == 0`.
unfoldable pub fill_list :
    Params → Work → ℕ → ℕ → SelectionMode → ℕ → Option (List ActcData) → Status × Work
unfolding collect_pages
fill_list p w from to mode nr_mig none =
    (fail einval, set_list w from to (record { nr = 0; addr = none }))
fill_list p w from to mode nr_mig (some ps) =
    if p.can_alloc from to
    then (
      done,
      store_collected w from to (w.scan from)
          (collect_pages p.pid_type mode (ltb from p.nr_local_numa) nr_mig (w.scan from) ps),
    )
    else (fail enomem, set_list w from to (record { nr = nr_mig; addr = none }))

unfoldable pub build_select_k_mlist_addr : Params → Work → ℕ → ℕ → SelectionMode → Status × Work
unfolding fill_list
build_select_k_mlist_addr p w from to mode =
    let offset = w.numa_offset from in
    let n = (w.scan from).actc_len in
    let l = w.mlist from to in
    let nr_mig = min l.nr (n - offset) in
    if leb n offset
    then (done, set_list w from to (record l { nr = 0 }))
    else if nr_mig == 0
    then (done, set_list w from to (record l { nr = 0 }))
    else fill_list p w from to mode nr_mig (w.scan from).actc_data

-- `numaOffset[from] += mlist[from][to].nr`, a `uint64_t`.
abbrev pub add_offset : Work → ℕ → ℕ → Work
add_offset w from to = record w {
  numa_offset = update w.numa_offset from ((w.numa_offset from + (w.mlist from to).nr) % 2 ^ 64);
}

abbrev pub after_build : ℕ → ℕ → Status × Work → Status × Work
after_build from to (done, w) = (done, add_offset w from to)
after_build from to (fail e, w) = (fail e, w)

unfoldable pub build_pair_mlist : Params → Work → ℕ → ℕ → ℕ → SelectionMode → Status × Work
unfolding build_select_k_mlist_addr
build_pair_mlist p w from to nr_migrate mode =
    if nr_migrate == 0
    then (done, w)
    else after_build from to (
        build_select_k_mlist_addr p
          (set_list w from to (record (w.mlist from to) { nr = nr_migrate })) from to mode)

-- `FreeMlist`: no buffer and no page is left in any list.
abbrev pub free_mlist : Work → Work
free_mlist w = record w { mlist = λ _ _. record { nr = 0; addr = none } }

-- `LOCAL_NUMA_BITS` of the user-space build.
-- The remote nodes of one local node, and all pairs, in the order of the two loops.
abbrev pub remotes_of : ℕ → ℕ → ℕ → List (ℕ × ℕ)
remotes_of local remote zero = []
remotes_of local remote (suc n) = (local, remote) ∷ remotes_of local (remote + 1) n

abbrev pub pairs_from : ℕ → ℕ → ℕ → List (ℕ × ℕ)
pairs_from nr_local local zero = []
pairs_from nr_local local (suc n) =
    remotes_of local nr_local remote_numa_num ++ pairs_from nr_local (local + 1) n

-- `mlist` is filled in one direction, then in the other.
abbrev pub then_build : Params → ℕ → ℕ → ℕ → SelectionMode → Status × Work → Status × Work
then_build p from to nr mode (done, w) = build_pair_mlist p w from to nr mode
then_build p from to nr mode (fail e, w) = (fail e, w)

abbrev pub free_on_error : Status × Work → Status × Work
free_on_error (done, w) = (done, w)
free_on_error (fail e, w) = (fail e, free_mlist w)

-- The pages that both directions of a pair have in common, unless bandwidth restricts the swap.
abbrev pub swap_pages : Params → ℕ → ℕ → ℕ
swap_pages p local remote = elim (p.ub_bw_restrict remote) [
  | ub_bw_normal ↦ min (p.nr_migrate_pages local remote) (p.nr_migrate_pages remote local)
  | ub_bw_swap_stop ↦ 0
]

-- The number asked for from one node of a pair to the other, a `uint32_t`.
abbrev pub pair_pages : Params → ℕ → ℕ → ℕ → ℕ
pair_pages p from to swap =
    let out = p.nr_migrate_pages from to in
    (out - min out (p.nr_migrate_pages to from) + swap) % 2 ^ 32

unfoldable pub pair_step : Params → ℕ × ℕ → Work → Status × Work
unfolding build_pair_mlist
pair_step p (local, remote) w =
    let swap = swap_pages p local remote in
    if p.is_node_forbidden remote
    then (done, w)
    else free_on_error (
        then_build p remote local (pair_pages p remote local swap) select_top_k
          (build_pair_mlist p w local remote (pair_pages p local remote swap) select_bottom_k))

-- The loop goes on after 0 and returns an error at once.
abbrev pub continue_if_done : (Work → Status × Work) → Status × Work → Status × Work
continue_if_done rest (done, w) = rest w
continue_if_done rest (fail e, w) = (fail e, w)

unfoldable pub pair_loop : Params → List (ℕ × ℕ) → Work → Status × Work
unfolding pair_step
pair_loop p [] w = (done, w)
pair_loop p (x ∷ xs) w = continue_if_done (pair_loop p xs) (pair_step p x w)

-- `PairMigrationStrategy` for a process that is not NULL.
unfoldable pub pair_migration_strategy : Params → Work → Status × Work
unfolding pair_loop
pair_migration_strategy p w =
    let n = p.nr_local_numa in
    if n == 0 || ltb local_numa_num n || ltb max_nodes (n + remote_numa_num)
    then (fail einval, w)
    else pair_loop p (pairs_from n 0 n) (record w { numa_offset = λ _. 0 })
