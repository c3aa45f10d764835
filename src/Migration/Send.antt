-- ===== src/Migration/Send.antt =====
-- Filling and sending a message: `AddMigList`, `DecideThreadNum` with the check of
-- `RunMultiThreadedMigrate`, `AppendCompMigResults` and `BuildCompMigListFromScan`. The message, lists
-- and processes are not NULL; a list with a buffer has `nr` addresses.
pub mod Bounds
use ubturbo.Errno.{Status, done, fail, enospc, enomem}
use ubturbo.Prelude.{
  not, ◌∷◌, Option, Bool, false, ◌++◌, ◌||◌, true, ℕ, some, [], List, ◌+◌, none, if◌then◌else◌, ltb,
  ◌==◌, leb, length, u64, min,
}
use mathlib.Core.List.{◌++◌}

-- A list with the addresses of its pages.
pub record AddrList : Type 0 where
  pub pid : ℕ
  pub from : ℕ
  pub to : ℕ
  pub nr : ℕ
  pub addr : Option (List ℕ)

abbrev pub is_none {ℓ} : {A : Type ℓ} → Option A → Bool
is_none none = true
is_none (some a) = false

-- `max_count` is `GetCurrentMaxNrPid() * MAX_PER_PID_MIG_LIST_COUNT`.
unfoldable pub add_mig_list : ℕ → Bool → List AddrList → AddrList → Status × List AddrList
add_mig_list max_count can_alloc msg l =
    if (l.nr == 0) || is_none l.addr
    then (done, msg)
    else if leb max_count (length msg)
    then (fail enospc, msg)
    else if not can_alloc
    then (fail enomem, msg)
    else (done, msg ++ (l ∷ []))

abbrev pub sig_thread_mig_out : ℕ
sig_thread_mig_out = 1

abbrev pub less_thread_mig_out : ℕ
less_thread_mig_out = 4

abbrev pub more_thread_mig_out : ℕ
more_thread_mig_out = 8

abbrev pub less_mig_out_huge_page_thre : ℕ
less_mig_out_huge_page_thre = 40

abbrev pub more_mig_out_huge_page_thre : ℕ
more_mig_out_huge_page_thre = 400

-- The sum of the page counts, a `uint64_t`.
unfoldable pub total_nr : List ℕ → ℕ → ℕ
total_nr [] total = total
total_nr (n ∷ ns) total = total_nr ns (u64 (total + n))

-- `is_huge` says that the message has huge pages, `any_shared` that a process maps shared memory.
unfoldable pub decide_thread_num : Bool → Bool → List ℕ → ℕ
unfolding total_nr
decide_thread_num is_huge any_shared nrs =
    let total = total_nr nrs 0 in
    if not is_huge
    then sig_thread_mig_out
    else if (total == 0) || leb total less_mig_out_huge_page_thre
    then sig_thread_mig_out
    else if any_shared
    then sig_thread_mig_out
    else if leb total more_mig_out_huge_page_thre
    then less_thread_mig_out
    else more_thread_mig_out

-- The check of `RunMultiThreadedMigrate`.
abbrev pub is_thread_num_invalid : ℕ → Bool
is_thread_num_invalid n = leb n sig_thread_mig_out || ltb more_thread_mig_out n

abbrev without_addr : List AddrList → List AddrList
without_addr [] = []
without_addr (l ∷ ls) = record l { addr = none } ∷ without_addr ls

-- `AppendCompMigResults`.
unfoldable pub append_comp_mig_results :
    Bool → List AddrList → List AddrList → Status × List AddrList
append_comp_mig_results can_alloc msg comp =
    if length comp == 0
    then (done, msg)
    else if not can_alloc
    then (fail enomem, msg)
    else (done, msg ++ without_addr comp)

-- What `BuildCompMigListFromScan` leaves of the plan: `built` and `shouldFreeze`.
pub record BuiltComp : Type 0 where
  pub built : ℕ
  pub should_freeze : Bool

-- The arguments are `need`, the pages of the source, the free pages of the destination, whether there
-- are scanned pages, and whether the allocation succeeds.
unfoldable pub build_comp_mig_list_from_scan : ℕ → ℕ → ℕ → Bool → Bool → BuiltComp
build_comp_mig_list_from_scan need source_pages dest_free_pages has_data can_alloc =
    let nr = min (min need source_pages) dest_free_pages in
    if (nr == 0) || not has_data
    then record { built = 0; should_freeze = true }
    else if not can_alloc
    then record { built = 0; should_freeze = true }
    else record { built = nr; should_freeze = ltb nr need }
