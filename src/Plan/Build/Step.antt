-- ===== src/Plan/Build/Step.antt =====
-- One plan of `BuildPairPlans`: its direction, and what it takes from the two budgets.
use ubturbo.Prelude.{
  ◌<◌, ◌+◌, true, ℕ, arith, ◌^◌, ◌≡◌, ◌==◌, if◌then◌else◌, ◌-◌, ◌≤◌, length, All, max, ltb, if_ind,
  u32, u64, update,
}
use ubturbo.Plan.Types.{PairPlan, PairPlanContext, is_pair_plan_direction_valid, budget_at}
use ubturbo.Plan.Build.{Staged, plan_pages, spend, demote_amount, promote_amount, cleared}
use ubturbo.Plan.Build.Accounts.{spent, BudgetOk, All-budget_at, spend-BudgetOk, spent-spend}

-- The words of a plan and of the nodes' accounts are words.
abbrev pub PlanWords : PairPlan → Type 0
PlanWords p = (p.target_pages < 2 ^ 32) × (p.actual_pages < 2 ^ 32)

abbrev pub NodeWords : PairPlanContext → (ℕ → ℕ) → Type 0
NodeWords c planned = (n : ℕ) → (c.free_pages n < 2 ^ 64) × (planned n < 2 ^ 64)

-- The pages that a plan moves.
abbrev pub moved : PairPlan → ℕ
moved p = p.demote_pages + p.promote_pages

module _ (c : PairPlanContext) (i : ℕ) (p : PairPlan) (s : Staged) where
  pub plan_pages_valid : PlanWords p → is_pair_plan_direction_valid (plan_pages c i p s).0 ≡ true
  unfolding plan_pages is_pair_plan_direction_valid
  plan_pages_valid w = ground arith

  pub plan_pages_keeps :
      let p' = (plan_pages c i p s).0 in
      (p'.pid ≡ p.pid) × (p'.local_nid ≡ p.local_nid) × (p'.swap_pages ≡ 0)
  unfolding plan_pages
  plan_pages_keeps = ground arith

  pub plan_pages_node :
      PlanWords p
      → NodeWords c s.planned
      → (n : ℕ)
      → (plan_pages c i p s).1.planned n
        ≡ s.planned n + (if p.local_nid == n then (plan_pages c i p s).0.promote_pages else 0)
  unfolding plan_pages
  plan_pages_node w nodes n = ground (arith, nodes p.local_nid, nodes n)

  pub plan_pages_safe :
      NodeWords c s.planned
      → (n : ℕ)
      → (plan_pages c i p s).1.planned n
        ≤ max (s.planned n) (c.free_pages n - c.safety_reserve_pages n)
  unfolding plan_pages
  plan_pages_safe w n = ground (arith, w p.local_nid, w n)

  module _ (h : i < length s.budgets) (v : All BudgetOk s.budgets) (w : PlanWords p) where
    -- The budget pays for the pages moved, and is not overdrawn.
    abbrev pub Paid : PairPlan × Staged → Type 0
    Paid (p', s') =
        All BudgetOk s'.budgets
        × ((pid : ℕ)
            → spent pid s'.budgets
              ≡ spent pid s.budgets + (if (budget_at s.budgets i).pid == pid then moved p' else 0))

    pay :
        (p' : PairPlan) (planned' : ℕ → ℕ) (n : ℕ)
        → moved p' ≡ n
        → n ≤ (budget_at s.budgets i).max_migrate_pages - (budget_at s.budgets i).planned_pages
        → Paid (p', record { budgets = spend s.budgets i n; planned = planned' })
    pay p' planned' n e room =
        let ok = All-budget_at s.budgets i h v in
        (
          spend-BudgetOk s.budgets i n h v (omega (arith, ok.0)),
          λ pid. rw e (spent-spend s.budgets i n h v (omega (arith, ok.0)) pid),
        )

    pub plan_pages-Paid : Paid (plan_pages c i p s)
    unfolding plan_pages
    plan_pages-Paid =
        let ok = All-budget_at s.budgets i h v in
        let out = demote_amount i p s in
        let home = promote_amount c i p s in
        if_ind Paid (ltb p.actual_pages p.target_pages)
          (λ _.
            pay (record (cleared p) { demote_pages = u32 out }) s.planned out (omega arith)
              (omega (arith, ok)))
          (λ _.
            if_ind Paid (ltb p.target_pages p.actual_pages)
              (λ _.
                pay (record (cleared p) { promote_pages = u32 home })
                  (update s.planned p.local_nid (u64 (s.planned p.local_nid + home))) home
                  (omega arith) (omega (arith, ok)))
              (λ _. (v, λ pid. ground arith)))
