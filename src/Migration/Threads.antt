-- ===== src/Migration/Threads.antt =====
-- The split of a message among threads, `BuildSubMigrateMsgs` and `AggregateSubMigResults`, with
-- `AggregateSubThreadRet`. Whether the allocations succeed and what the kernel writes back are arguments.
pub mod Share
pub mod Results
use ubturbo.Errno.{fail}
use ubturbo.Errno.{einval, enomem, Status, done}
use ubturbo.Result.{Result, err, ok}
use ubturbo.Migration.Message.{MigEntry}
use ubturbo.Prelude.{
  ◌∷◌, [], ◌++◌, ◌+◌, ◌%◌, suc, zero, ℕ, List, Bool, true, false, ◌/◌, ◌==◌, ltb, if◌then◌else◌,
  u64, update, not,
}

-- An entry of a thread's message, with `origIdx` and the offset of its addresses.
pub record SubEntry : Type 0 where
  pub entry : MigEntry
  pub offset : ℕ
  pub orig_idx : ℕ

abbrev pub sub_entry : ℕ → MigEntry → ℕ → ℕ → SubEntry
sub_entry j m nr offset = record {
  entry = record m { nr = nr; success_to_user = false; failed_mig_nr = 0; failed_isolated_nr = 0 };
  offset = offset;
  orig_idx = j;
}

-- The messages of the threads.
abbrev pub Subs : Type 0
Subs = ℕ → List SubEntry

-- The loop over the threads from `i`, `k` of them, for entry `j` with `chunk` and `rem`.
unfoldable pub split_loop : ℕ → ℕ → ℕ → MigEntry → ℕ → ℕ → ℕ → Subs → Subs
split_loop chunk rem j m zero i offset subs = subs
split_loop chunk rem j m (suc k) i offset subs =
    let sub_nr = u64 (chunk + (if ltb i rem then 1 else 0)) in
    let idle = split_loop chunk rem j m k (i + 1) offset subs in
    let given =
      split_loop chunk rem j m k (i + 1) (u64 (offset + sub_nr))
        (update subs i (subs i ++ (sub_entry j m sub_nr offset ∷ []))) in
    if sub_nr == 0 then idle else given

-- The loop over the entries from index `j`.
unfoldable pub split_entries : ℕ → ℕ → List MigEntry → Subs → Subs
unfolding split_loop
split_entries nr_threads j [] subs = subs
split_entries nr_threads j (m ∷ ms) subs =
    let split = split_loop (m.nr / nr_threads) (m.nr % nr_threads) j m nr_threads 0 0 subs in
    split_entries nr_threads (j + 1) ms (if m.nr == 0 then subs else split)

-- The messages of `nr_threads` threads, or an error.
unfoldable pub build_sub_migrate_msgs : Bool → ℕ → List MigEntry → Result Subs
unfolding split_entries
build_sub_migrate_msgs can_alloc nr_threads ms =
    if nr_threads == 0
    then err einval
    else if not can_alloc
    then err enomem
    else ok (split_entries nr_threads 0 ms (λ _. []))

-- One entry of a thread added to its original; `failed` says that the thread's ioctl failed.
abbrev pub add_result : Bool → MigEntry → MigEntry → MigEntry
add_result failed sub m =
    let m' =
      if failed
      then record m { failed_isolated_nr = u64 (m.failed_isolated_nr + sub.nr) }
      else record m {
        failed_mig_nr = u64 (m.failed_mig_nr + sub.failed_mig_nr);
        failed_isolated_nr = u64 (m.failed_isolated_nr + sub.failed_isolated_nr);
      } in
    if sub.success_to_user then record m' { success_to_user = true } else m'

-- The original of index `j`, as the loop over the entries of one thread leaves it.
unfoldable pub aggregate_thread : Bool → List SubEntry → (ℕ → MigEntry) → ℕ → MigEntry
aggregate_thread failed [] ms = ms
aggregate_thread failed (s ∷ ss) ms =
    aggregate_thread failed ss (update ms s.orig_idx (add_result failed s.entry (ms s.orig_idx)))

-- `AggregateSubMigResults` over the threads from `i`, `k` of them.
unfoldable pub aggregate_sub_mig_results : (ℕ → Bool) → Subs → ℕ → ℕ → (ℕ → MigEntry) → ℕ → MigEntry
unfolding aggregate_thread
aggregate_sub_mig_results failed subs zero i ms = ms
aggregate_sub_mig_results failed subs (suc k) i ms =
    aggregate_sub_mig_results failed subs k (i + 1) (aggregate_thread (failed i) (subs i) ms)

-- The first error of a thread, or 0.
unfoldable pub aggregate_sub_thread_ret : List Status → Status
aggregate_sub_thread_ret [] = done
aggregate_sub_thread_ret (done ∷ rs) = aggregate_sub_thread_ret rs
aggregate_sub_thread_ret (fail e ∷ rs) = fail e
