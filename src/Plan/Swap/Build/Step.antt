-- ===== src/Plan/Swap/Build/Step.antt =====
-- The swap pages of one plan stay within the limit, and are charged exactly.
use ubturbo.Prelude.{
  arith, ℕ, ◌-◌, ◌≡◌, ◌*◌, refl, ◌+◌, ◌≤◌, if◌then◌else◌, ◌==◌, All, u32_max, u64, max, min,
}
use ubturbo.Plan.Types.{PairPlan, PairPlanContext, budget_at}
use ubturbo.Plan.Build.{Staged, pid_remaining}
use ubturbo.Plan.Build.Accounts.{
  HasBudget, spent, BudgetOk, All-budget_at, spend-BudgetOk, spent-spend,
}
use ubturbo.Plan.Build.Step.{NodeWords}
use ubturbo.Plan.Swap.Count.{ProcessView}
use ubturbo.Plan.Swap.Build.{
  calc_pair_remote_guarantee_extra_swap, swap_amount, swap_limit, charge_swap, Selected, with_extra,
}

extra_swap-le :
    (v : ProcessView) (p : PairPlan) (ls rs base rest : ℕ)
    → calc_pair_remote_guarantee_extra_swap v p ls rs base rest ≤ rest
unfolding calc_pair_remote_guarantee_extra_swap
extra_swap-le v p ls rs base rest = ground arith

with_extra-le :
    (v : ProcessView) (p : PairPlan) (selected : ℕ → ℕ) (limit count : ℕ)
    → with_extra v p selected limit count ≤ limit
unfolding with_extra
with_extra-le v p selected limit count = ground (
  arith,
  extra_swap-le v p (selected p.local_nid) (selected p.remote_nid) (min count limit)
      (limit - min count limit),
)

pub swap_amount-le :
    (v : ProcessView) (p : PairPlan) (selected : ℕ → ℕ) (limit : ℕ)
    → swap_amount v p selected limit ≤ limit
unfolding swap_amount
swap_amount-le v p selected limit = with_extra-le v p selected limit _

-- The pages of a plan, charged to its process twice and to its local node once.
pub record Charges (c : PairPlanContext) (p : PairPlan) (s : Staged) (p' : PairPlan) (s' : Staged)
    : Type 0 where
  pub plan_kept : record p' { swap_pages = 0 } ≡ record p { swap_pages = 0 }
  pub same_pair : (p'.pid ≡ p.pid) × (p'.local_nid ≡ p.local_nid)
  pub within : All BudgetOk s'.budgets
  pub paid :
      (pid : ℕ)
      → spent pid s'.budgets ≡ spent pid s.budgets + (if p.pid == pid then 2 * p'.swap_pages else 0)
  pub brought :
      (n : ℕ) → s'.planned n ≡ s.planned n + (if p.local_nid == n then p'.swap_pages else 0)
  pub safe : (n : ℕ) → s'.planned n ≤ max (s.planned n) (c.free_pages n - c.safety_reserve_pages n)

module _ (c : PairPlanContext) (i : ℕ) (p : PairPlan) (s : Staged) (n : ℕ)
    (found : HasBudget s.budgets p.pid i) (v : All BudgetOk s.budgets)
    (nodes : NodeWords c s.planned) (fits : n ≤ swap_limit c i p s) where
  ok : BudgetOk (budget_at s.budgets i)
  ok = All-budget_at s.budgets i found.0 v

  half : (n * 2 ≤ pid_remaining s.budgets i) × (n ≤ u32_max)
  half = ground (arith, fits)

  pub charge_swap-Charges :
      (sel : Selected) → let r = charge_swap i p n sel s in Charges c p s r.0 r.2
  unfolding charge_swap
  charge_swap-Charges sel = record {
    plan_kept = refl;
    same_pair = (refl, refl);
    within = spend-BudgetOk s.budgets i (u64 (n * 2)) found.0 v (omega (arith, ok, half));
    paid = λ pid. ground (
      arith,
      found.1,
      half,
      spent-spend s.budgets i (u64 (n * 2)) found.0 v (omega (arith, ok, half)) pid,
    );
    brought = λ k. ground (arith, fits, nodes k, nodes p.local_nid, half);
    safe = λ k. ground (arith, fits, nodes k, nodes p.local_nid, half);
  }

-- A plan without a swap charges nothing.
pub Charges-none :
    (c : PairPlanContext) (p : PairPlan) (s : Staged)
    → All BudgetOk s.budgets
    → Charges c p s (record p { swap_pages = 0 }) s
Charges-none c p s v = record {
  plan_kept = refl;
  same_pair = (refl, refl);
  within = v;
  paid = λ pid. ground arith;
  brought = λ n. ground arith;
  safe = λ n. omega arith;
}
