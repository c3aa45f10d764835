-- ===== src/Plan/Swap/Build.antt =====
-- `BuildPairSwapPlans` with `CalcPairRemoteGuaranteeExtraSwap` and `IsOnlyLocalForRemote`. The
-- processes that `GetProcessAttr` finds and the forbidden nodes are arguments; `memset_s` clears.
pub mod Step
pub mod Outcome
use ubturbo.Limits.{max_nodes, max_pair_target_count, max_4k_processes_cnt}
use ubturbo.Prelude.{
  ◌&&◌, some, ℕ, Bool, ◌||◌, not, ◌+◌, ◌*◌, true, none, ◌∷◌, ◌-◌, false, Option, ◌/◌, [], List,
  if◌then◌else◌, ◌==◌, leb, ltb, length, u64, is_negative, u32, u32_max, update, min,
}
use ubturbo.Errno.{einval}
use ubturbo.Result.{Result, ok, err}
use ubturbo.Plan.Types.{
  PairPlan, PairPlanContext, PairPidBudget, Lookup, at, failed, find_pair_pid_budget, budget_at,
  is_pair_plan_direction_valid,
}
use ubturbo.Plan.Build.{Staged, pid_remaining, spend}
use ubturbo.Plan.Swap.Count.{ProcessView, count_pair_swap_pages}

-- The sums are of page counts, which do not wrap.
unfoldable pub calc_pair_remote_guarantee_extra_swap : ProcessView → PairPlan → ℕ → ℕ → ℕ → ℕ → ℕ
calc_pair_remote_guarantee_extra_swap v p local_selected remote_selected base_swap_pages
      remaining_swap_budget =
    let local_after_base = u64 (local_selected + base_swap_pages) in
    let remote_after_base = u64 (remote_selected + base_swap_pages) in
    let remote_guarantee = v.remote_hot_num p.remote_nid in
    let local_remaining = v.actc_len p.local_nid - local_after_base in
    let remote_remaining = v.actc_len p.remote_nid - remote_after_base in
    let missing_hot_pages = remote_guarantee - remote_after_base in
    if not (v.has_data p.local_nid)
      || not (v.has_data p.remote_nid)
      || (v.actc_len p.local_nid == 0)
      || (v.actc_len p.remote_nid == 0)
    then 0
    else if leb remote_guarantee remote_after_base
    then 0
    else min (min missing_hot_pages local_remaining) (min remote_remaining remaining_swap_budget)

-- A plan of the same process and remote node that is not all zero.
abbrev is_active_for : PairPlan → PairPlan → Bool
is_active_for p q =
    (q.pid == p.pid)
    && (q.remote_nid == p.remote_nid)
    && not (
        (q.target_pages == 0)
        && (q.actual_pages == 0)
        && (q.demote_pages == 0)
        && (q.promote_pages == 0))

unfoldable pub count_active : PairPlan → List PairPlan → ℕ
count_active p [] = 0
count_active p (q ∷ qs) = (if is_active_for p q then 1 else 0) + count_active p qs

unfoldable pub is_only_local_for_remote : List PairPlan → PairPlan → Bool
unfolding count_active
is_only_local_for_remote plans p = count_active p plans == 1

-- `selectedFrom` of a process: what its plans demote and promote, by source node.
unfoldable pub select_from : ℕ → List PairPlan → (ℕ → ℕ) → ℕ → ℕ
select_from pid [] selected = selected
select_from pid (p ∷ ps) selected =
    let selected' = update selected p.local_nid (u64 (selected p.local_nid + p.demote_pages)) in
    select_from pid ps (
      if p.pid == pid
      then update selected' p.remote_nid (u64 (selected' p.remote_nid + p.promote_pages))
      else selected)

-- `currentPid` and `selectedFrom`.
pub record Selected : Type 0 where
  pub current_pid : ℕ
  pub selected_from : ℕ → ℕ

unfoldable pub enter_process : List PairPlan → ℕ → Selected → Selected
unfolding select_from
enter_process plans pid s =
    if s.current_pid == pid
    then s
    else record { current_pid = pid; selected_from = select_from pid plans (λ _. 0) }

abbrev pub is_swap_skipped : (ℕ → Bool) → ProcessView → List PairPlan → PairPlan → Bool
is_swap_skipped is_node_forbidden v plans p =
    not v.enable_swap
    || is_node_forbidden p.remote_nid
    || not (is_only_local_for_remote plans p)
    || ((p.target_pages == 0) && (p.demote_pages == 0) && (p.promote_pages == 0))

-- `swapLimit`: what the local node and the process still allow.
abbrev pub swap_limit : PairPlanContext → ℕ → PairPlan → Staged → ℕ
swap_limit c i p s =
    let free = c.free_pages p.local_nid in
    let reserve = c.safety_reserve_pages p.local_nid in
    let safe_capacity = if ltb reserve free then free - reserve else 0 in
    let planned = s.planned p.local_nid in
    let local_free = if ltb planned safe_capacity then safe_capacity - planned else 0 in
    min (min local_free (pid_remaining s.budgets i / 2)) u32_max

abbrev counted : Option ℕ → ℕ
counted none = 0
counted (some n) = n

-- `swapPages` with the extra pages of the guarantee. `CountPairSwapPages` always counts.
-- `min` with the limit and the extra pages within what remains of it.
unfoldable pub with_extra : ProcessView → PairPlan → (ℕ → ℕ) → ℕ → ℕ → ℕ
unfolding calc_pair_remote_guarantee_extra_swap
with_extra v p selected limit count =
    let base = min count limit in
    u64 (
      base
      + calc_pair_remote_guarantee_extra_swap v p (selected p.local_nid) (selected p.remote_nid)
          base (limit - base))

unfoldable pub swap_amount : ProcessView → PairPlan → (ℕ → ℕ) → ℕ → ℕ
unfolding with_extra count_pair_swap_pages
swap_amount v p selected limit = with_extra v p selected limit (
    counted (
      count_pair_swap_pages v p.local_nid p.remote_nid (selected p.local_nid)
        (selected p.remote_nid)))

-- The pages are charged to the plan, to both nodes' selections, to the node and twice to the
-- process.
unfoldable pub charge_swap : ℕ → PairPlan → ℕ → Selected → Staged → PairPlan × Selected × Staged
charge_swap i p n sel s =
    let f = update sel.selected_from p.local_nid (u64 (sel.selected_from p.local_nid + n)) in
    (
      record p { swap_pages = u32 n },
      record sel { selected_from = update f p.remote_nid (u64 (f p.remote_nid + n)) },
      record {
        budgets = spend s.budgets i (u64 (n * 2));
        planned = update s.planned p.local_nid (u64 (s.planned p.local_nid + n));
      },
    )

abbrev pub is_size_invalid : List PairPlan → List PairPidBudget → Bool
is_size_invalid plans budgets =
    ltb max_pair_target_count (length plans)
    || ltb max_4k_processes_cnt (length budgets)
    || (ltb 0 (length plans) && (length budgets == 0))

module _ (get_process : ℕ → Option ProcessView) (is_node_forbidden : ℕ → Bool) where
  -- The checks of one plan in the first loop.
  unfoldable pub is_swap_plan_invalid : PairPlanContext → List PairPidBudget → PairPlan → Bool
  unfolding find_pair_pid_budget is_pair_plan_direction_valid
  is_swap_plan_invalid c budgets p = elim (find_pair_pid_budget budgets p.pid) [
    | failed e ↦ true
    | at i ↦ elim (get_process p.pid) [
      | none ↦ true
      | some v ↦
          v.group_enabled
          || is_negative p.local_nid
          || leb c.nr_local_numa p.local_nid
          || is_negative p.remote_nid
          || ltb p.remote_nid c.nr_local_numa
          || leb max_nodes p.remote_nid
          || not (is_pair_plan_direction_valid p)
          || ltb (budget_at budgets i).max_migrate_pages (budget_at budgets i).planned_pages
    ]
  ]

  unfoldable pub is_any_invalid : PairPlanContext → List PairPidBudget → List PairPlan → Bool
  unfolding is_swap_plan_invalid
  is_any_invalid c budgets [] = false
  is_any_invalid c budgets (p ∷ ps) =
      is_swap_plan_invalid c budgets p || is_any_invalid c budgets ps

  -- One round of the second loop. The first loop found the process and the budget. What it reads of
  -- `plans` no round changes.
  unfoldable pub swap_found :
      PairPlanContext
      → List PairPlan
      → PairPlan
      → Selected
      → Staged
      → Option ProcessView
      → Lookup
      → PairPlan × Selected × Staged
  unfolding swap_amount charge_swap is_only_local_for_remote
  swap_found c plans p sel s none l = (record p { swap_pages = 0 }, sel, s)
  swap_found c plans p sel s (some v) (failed e) = (record p { swap_pages = 0 }, sel, s)
  swap_found c plans p sel s (some v) (at i) =
      if is_swap_skipped is_node_forbidden v plans p
      then (record p { swap_pages = 0 }, sel, s)
      else charge_swap i p (swap_amount v p sel.selected_from (swap_limit c i p s)) sel s

  unfoldable pub swap_step :
      PairPlanContext → List PairPlan → PairPlan → Selected → Staged → PairPlan × Selected × Staged
  unfolding enter_process swap_found find_pair_pid_budget
  swap_step c plans p sel s =
      swap_found c plans p (enter_process plans p.pid sel) s (get_process p.pid)
        (find_pair_pid_budget s.budgets p.pid)

  unfoldable pub swap_loop :
      PairPlanContext → List PairPlan → List PairPlan → Selected → Staged → List PairPlan × Staged
  unfolding swap_step
  swap_loop c plans [] sel s = ([], s)
  swap_loop c plans (p ∷ ps) sel s =
      let (p', sel', s') = swap_step c plans p sel s in
      let (ps', s'') = swap_loop c plans ps sel' s' in (p' ∷ ps', s'')

  unfoldable pub build_pair_swap_plans :
      PairPlanContext
      → List PairPlan
      → List PairPidBudget
      → Result (List PairPlan × List PairPidBudget × PairPlanContext)
  unfolding is_any_invalid swap_loop
  build_pair_swap_plans c plans budgets =
      let (plans', s) =
        swap_loop c plans plans (record { current_pid = u32_max; selected_from = λ _. 0 })
          (record { budgets = budgets; planned = c.planned_pages }) in
      if is_size_invalid plans budgets
      then err einval
      else if is_any_invalid c budgets plans
      then err einval
      else ok (plans', s.budgets, record c { planned_pages = s.planned })
