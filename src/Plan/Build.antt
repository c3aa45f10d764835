-- ===== src/Plan/Build.antt =====
-- `BuildPairPlans`. The pointers are not NULL; `memcpy_s` between buffers that are large enough
-- copies; `qsort` and whether the two allocations succeed are arguments. The counts are the lengths.
pub mod Accounts
pub mod Step
pub mod Outcome
use ubturbo.Limits.{
  max_nodes, local_numa_num, remote_numa_num, max_pair_target_count, max_4k_processes_cnt,
}
use ubturbo.Result.{Result, ok, err, reject_if, ◌>>◌, ◌>>=◌}
use ubturbo.Prelude.{
  [], Bool, ◌%◌, Option, some, true, ◌+◌, not, none, ◌-◌, ℕ, ◌^◌, List, false, ◌∷◌, ◌&&◌, ◌||◌, leb,
  if◌then◌else◌, ltb, ◌==◌, length, u64, u32, is_negative, set, min, update,
}
use ubturbo.Errno.{einval, enomem}
use ubturbo.Plan.Types.{
  PairPlan, PairPlanContext, PairPidBudget, Lookup, at, failed, same, compare_pair_plan,
  find_pair_pid_budget, budget_at,
}

-- The inner loop over `j`: no later budget of the same process.
unfoldable pub has_pid : ℕ → List PairPidBudget → Bool
has_pid pid [] = false
has_pid pid (b ∷ bs) = pid == b.pid || has_pid pid bs

-- No budget is overdrawn, and no process has two.
unfoldable pub check_budgets : List PairPidBudget → Result (Unit {0})
unfolding has_pid
check_budgets [] = ok tt
check_budgets (b ∷ bs) =
    let rest = check_budgets bs in
    reject_if (ltb b.max_migrate_pages b.planned_pages) einval
    >> (reject_if (has_pid b.pid bs) einval >> rest)

-- What the loop over the plans carries: `stagedPidBudgets` and `stagedContext.plannedPages`.
pub record Staged : Type 0 where
  pub budgets : List PairPidBudget
  pub planned : ℕ → ℕ

abbrev is_repeated : Option PairPlan → PairPlan → Bool
is_repeated none p = false
is_repeated (some q) p = elim (compare_pair_plan q p) [ same ↦ true | _ ↦ false ]

-- The nodes of a plan are in range and match its index, and it differs from the plan before.
unfoldable pub is_plan_invalid : PairPlanContext → Option PairPlan → PairPlan → Bool
unfolding compare_pair_plan
is_plan_invalid c before p =
    is_negative p.local_nid
    || leb c.nr_local_numa p.local_nid
    || is_negative p.remote_index
    || leb remote_numa_num p.remote_index
    || not (p.remote_nid == c.nr_local_numa + p.remote_index)
    || leb max_nodes p.remote_nid
    || is_repeated before p

-- Pages that may still come into a node: free, less its reserve and what is planned.
abbrev pub safe_free_pages : PairPlanContext → (ℕ → ℕ) → ℕ → ℕ
safe_free_pages c planned nid =
    let free = c.free_pages nid in
    let reserve = c.safety_reserve_pages nid in
    if leb free reserve || leb (free - reserve) (planned nid)
    then 0
    else free - reserve - planned nid

abbrev pub cleared : PairPlan → PairPlan
cleared p = record p { demote_pages = 0; promote_pages = 0; swap_pages = 0 }

-- `pidBudget->plannedPages += pages`
abbrev pub spend : List PairPidBudget → ℕ → ℕ → List PairPidBudget
spend budgets i pages =
    let b = budget_at budgets i in
    set budgets i (record b { planned_pages = u64 (b.planned_pages + pages) })

-- `pidBudget->maxMigratePages - pidBudget->plannedPages`, of `uint64_t`.
abbrev pub pid_remaining : List PairPidBudget → ℕ → ℕ
pid_remaining budgets i =
    let b = budget_at budgets i in (b.max_migrate_pages + 2 ^ 64 - b.planned_pages) % 2 ^ 64

-- `migratePages` of a plan that demotes, and of one that promotes.
abbrev pub demote_amount : ℕ → PairPlan → Staged → ℕ
demote_amount i p s = min (p.target_pages - p.actual_pages) (pid_remaining s.budgets i)

abbrev pub promote_amount : PairPlanContext → ℕ → PairPlan → Staged → ℕ
promote_amount c i p s =
    min (min (p.actual_pages - p.target_pages) (pid_remaining s.budgets i))
      (safe_free_pages c s.planned p.local_nid)

-- The pages of one plan, once its budget is found at index `i`.
unfoldable pub plan_pages : PairPlanContext → ℕ → PairPlan → Staged → PairPlan × Staged
plan_pages c i p s =
    let out = demote_amount i p s in
    let home = promote_amount c i p s in
    if ltb p.actual_pages p.target_pages
    then (
      record (cleared p) { demote_pages = u32 out },
      record s { budgets = spend s.budgets i out },
    )
    else if ltb p.target_pages p.actual_pages
    then (
      record (cleared p) { promote_pages = u32 home },
      record {
        budgets = spend s.budgets i home;
        planned = update s.planned p.local_nid (u64 (s.planned p.local_nid + home));
      },
    )
    else (cleared p, s)

abbrev pub found_index : Lookup → Result ℕ
found_index (at i) = ok i
found_index (failed e) = err e

-- One round of the loop, after the plan `before`.
unfoldable pub plan_step :
    PairPlanContext → Option PairPlan → PairPlan → Staged → Result (PairPlan × Staged)
unfolding is_plan_invalid find_pair_pid_budget plan_pages
plan_step c before p s = do
  reject_if (is_plan_invalid c before p) einval
  i ← found_index (find_pair_pid_budget s.budgets p.pid)
  ok (plan_pages c i p s)

-- The loop over the sorted plans. The plan before is compared with its new page counts, which the
-- comparison does not read.
unfoldable pub plan_loop :
    PairPlanContext → Option PairPlan → List PairPlan → Staged → Result (List PairPlan × Staged)
unfolding plan_step
plan_loop c before [] s = ok ([], s)
plan_loop c before (p ∷ ps) s = do
  (p', s') ← plan_step c before p s
  (ps', s'') ← plan_loop c (some p') ps s'
  ok (p' ∷ ps', s'')

abbrev pub is_input_invalid : PairPlanContext → ℕ → List PairPlan → List PairPidBudget → Bool
is_input_invalid c plan_cap inputs budgets =
    ltb plan_cap (length inputs)
    || ltb max_pair_target_count (length inputs)
    || ltb max_4k_processes_cnt (length budgets)
    || is_negative c.nr_local_numa
    || (c.nr_local_numa == 0)
    || ltb local_numa_num c.nr_local_numa
    || ltb max_nodes (c.nr_local_numa + remote_numa_num)
    || (ltb 0 (length inputs) && (length budgets == 0))

-- The new plans, budgets and context; with an error nothing of the caller's changes but the count.
unfoldable pub build_pair_plans :
    (List PairPlan → List PairPlan)
    → Bool
    → ℕ
    → PairPlanContext
    → List PairPlan
    → List PairPidBudget
    → Result (List PairPlan × List PairPidBudget × PairPlanContext)
unfolding check_budgets plan_loop
build_pair_plans qsort can_alloc plan_cap c inputs budgets =
    if is_input_invalid c plan_cap inputs budgets
    then err einval
    else if length inputs == 0
    then ok ([], budgets, c)
    else (do
      reject_if (not can_alloc) enomem
      check_budgets budgets
      (plans, s) ←
          plan_loop c none (qsort inputs) (record { budgets = budgets; planned = c.planned_pages })
      ok (plans, s.budgets, record c { planned_pages = s.planned }))
