-- ===== src/Plan/Apply.antt =====
-- `ApplyPairPlansForState`: the plans become the page counts of the processes that migrate. The
-- processes are those of the slots that it collects; `memcpy_s` copies the whole matrix.
pub mod Cells
pub mod Outcome
pub mod Stages
use ubturbo.Errno.{einval, enomem, eoverflow}
use ubturbo.Limits.{
  remote_numa_num, max_pair_target_count, max_nodes, local_numa_num, max_4k_processes_cnt,
}
use ubturbo.Result.{Result, ok, err, ◌>>=◌}
use ubturbo.Plan.Types.{PairPlan, is_pair_plan_direction_valid}
use ubturbo.Prelude.{
  ◌&&◌, not, ◌-◌, true, false, [], ◌||◌, ◌+◌, ◌∷◌, Bool, ℕ, List, if◌then◌else◌, ltb, ◌==◌, leb,
  length, is_negative, u32_max, update,
}

-- What the code reads of a process, and `strategyAttr.nrMigratePages`. `is_normal_scan` and
-- `is_migrating` stand for the comparisons of `scanType` and `state`.
pub record PlannedProcess : Type 0 where
  pub pid : ℕ
  pub is_normal_scan : Bool
  pub group_enabled : Bool
  pub is_migrating : Bool
  pub nr_migrate_pages : ℕ → ℕ → ℕ

abbrev pub is_staged : PlannedProcess → Bool
is_staged p = p.is_normal_scan && not p.group_enabled && p.is_migrating

-- `PairPlanMatrixStage`; `pairSeen` by local node and remote index.
pub record MatrixStage : Type 0 where
  pub pid : ℕ
  pub pair_seen : ℕ → ℕ → Bool
  pub pages : ℕ → ℕ → ℕ

unfoldable pub stages_of : List PlannedProcess → List MatrixStage
stages_of [] = []
stages_of (p ∷ ps) =
    if is_staged p
    then record { pid = p.pid; pair_seen = λ _ _. false; pages = λ _ _. 0 } ∷ stages_of ps
    else stages_of ps

abbrev pub write_pages : (ℕ → ℕ → ℕ) → ℕ → ℕ → ℕ → ℕ → ℕ → ℕ
write_pages m from to n = update m from (update (m from) to n)

unfoldable pub is_stage_invalid : ℕ → PairPlan → MatrixStage → Bool
unfolding is_pair_plan_direction_valid
is_stage_invalid nr_local_numa p s =
    is_negative p.local_nid
    || leb nr_local_numa p.local_nid
    || is_negative p.remote_index
    || leb remote_numa_num p.remote_index
    || not (p.remote_nid == nr_local_numa + p.remote_index)
    || leb max_nodes p.remote_nid
    || s.pair_seen p.local_nid p.remote_index
    || not (is_pair_plan_direction_valid p)

abbrev pub is_overflow : PairPlan → Bool
is_overflow p =
    ltb (u32_max - p.swap_pages) p.demote_pages || ltb (u32_max - p.swap_pages) p.promote_pages

-- One plan on the stage of its process.
unfoldable pub stage_plan : ℕ → PairPlan → MatrixStage → Result MatrixStage
unfolding is_stage_invalid
stage_plan nr_local_numa p s =
    if is_stage_invalid nr_local_numa p s
    then err einval
    else if is_overflow p
    then err eoverflow
    else ok (record s {
      pair_seen =
          update s.pair_seen p.local_nid (update (s.pair_seen p.local_nid) p.remote_index true);
      pages =
          write_pages (write_pages s.pages p.local_nid p.remote_nid (p.demote_pages + p.swap_pages))
            p.remote_nid p.local_nid (p.promote_pages + p.swap_pages);
    })

-- `FindPairPlanMatrixStage`, and the plan on the stage that it finds.
unfoldable pub stage_on : ℕ → PairPlan → List MatrixStage → Result (List MatrixStage)
unfolding stage_plan
stage_on nr_local_numa p [] = err einval
stage_on nr_local_numa p (s ∷ ss) =
    let rest = stage_on nr_local_numa p ss in
    if s.pid == p.pid
    then (stage_plan nr_local_numa p s >>= λ s'. ok (s' ∷ ss))
    else (rest >>= λ ss'. ok (s ∷ ss'))

unfoldable pub stage_plans : ℕ → List PairPlan → List MatrixStage → Result (List MatrixStage)
unfolding stage_on
stage_plans nr_local_numa [] ss = ok ss
stage_plans nr_local_numa (p ∷ ps) ss = stage_on nr_local_numa p ss >>= stage_plans nr_local_numa ps

-- The matrix of each stage to its process: the stages stand in the order of their processes.
unfoldable pub copy_stages : List PlannedProcess → List MatrixStage → List PlannedProcess
copy_stages [] ss = []
copy_stages (p ∷ ps) [] = p ∷ ps
copy_stages (p ∷ ps) (s ∷ ss) =
    if is_staged p
    then record p { nr_migrate_pages = s.pages } ∷ copy_stages ps ss
    else p ∷ copy_stages ps (s ∷ ss)

-- With an error no process changes.
unfoldable pub apply_pair_plans_for_state :
    Bool → ℕ → List PlannedProcess → List PairPlan → Result (List PlannedProcess)
unfolding stages_of stage_plans copy_stages
apply_pair_plans_for_state can_alloc nr_local_numa processes plans =
    if ltb max_pair_target_count (length plans)
    then err einval
    else if not can_alloc
    then err enomem
    else if is_negative nr_local_numa || (nr_local_numa == 0) || ltb local_numa_num nr_local_numa
    then err einval
    else if ltb max_4k_processes_cnt (length (stages_of processes))
    then err eoverflow
    else stage_plans nr_local_numa plans (stages_of processes) >>= λ ss.
        ok (copy_stages processes ss)
