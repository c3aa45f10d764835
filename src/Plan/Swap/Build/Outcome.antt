-- ===== src/Plan/Swap/Build/Outcome.antt =====
-- `BuildPairSwapPlans` as a whole: swaps are paid for and fit, and nothing else of a plan changes.
use ubturbo.Result.{ok, Ensures-elim, Ensures}
use ubturbo.Plan.Build.Step.{NodeWords}
use ubturbo.Plan.Build.Accounts.{BudgetOk, spent}
use ubturbo.Plan.Swap.Build.Step.{Charges, Charges-none, charge_swap-Charges, swap_amount-le}
use ubturbo.Plan.Build.{Staged}
use ubturbo.Plan.Swap.Count.{ProcessView}
use ubturbo.Plan.Types.{PairPlanContext, PairPlan, PairPidBudget, Lookup, find_pair_pid_budget}
use ubturbo.Plan.Swap.Build.{
  build_pair_swap_plans, swap_loop, swap_found, swap_step, Selected, enter_process, swap_amount,
  swap_limit, is_any_invalid, is_swap_skipped,
}
use ubturbo.Prelude.{
  [], Bool, Option, ◌*◌, refl, none, ◌∷◌, some, arith, ◌+◌, ◌-◌, ℕ, ◌≡◌, ◌≤◌, List, if_ind, ◌==◌,
  if◌then◌else◌, All, max, u32_max,
}
use ubturbo.Plan.Types.{at, failed, Lookup, find_pair_pid_budget}
use ubturbo.Plan.Build.Accounts.{find_pair_pid_budget-HasBudget}
use ubturbo.Plan.Swap.Build.{is_size_invalid}

-- The swap pages of the plans of a process, and those on a local node.
abbrev pub swapped_by : ℕ → List PairPlan → ℕ
swapped_by pid [] = 0
swapped_by pid (p ∷ ps) = (if p.pid == pid then 2 * p.swap_pages else 0) + swapped_by pid ps

abbrev pub swapped_on : ℕ → List PairPlan → ℕ
swapped_on nid [] = 0
swapped_on nid (p ∷ ps) = (if p.local_nid == nid then p.swap_pages else 0) + swapped_on nid ps

-- The plans but for their swaps.
abbrev pub unswapped : List PairPlan → List PairPlan
unswapped [] = []
unswapped (p ∷ ps) = record p { swap_pages = 0 } ∷ unswapped ps

-- What the swaps of `plans'` do to the accounts `s`, leaving `s'`.
pub record Swaps (c : PairPlanContext) (plans : List PairPlan) (s : Staged) (plans' : List PairPlan)
    (s' : Staged) : Type 0 where
  pub kept : unswapped plans' ≡ unswapped plans
  pub within : All BudgetOk s'.budgets
  pub paid : (pid : ℕ) → spent pid s'.budgets ≡ spent pid s.budgets + swapped_by pid plans'
  pub brought : (n : ℕ) → s'.planned n ≡ s.planned n + swapped_on n plans'
  pub safe : (n : ℕ) → s'.planned n ≤ max (s.planned n) (c.free_pages n - c.safety_reserve_pages n)

same-cons {ℓ} : {A : Type ℓ} {x y : A} {xs ys : List A} → x ≡ y → xs ≡ ys → (x ∷ xs) ≡ (y ∷ ys)
same-cons e es = cc

Swaps-cons :
    (c : PairPlanContext) {s s' s'' : Staged} {p p' : PairPlan} {ps ps' : List PairPlan}
    → Charges c p s p' s'
    → Swaps c ps s' ps' s''
    → Swaps c (p ∷ ps) s (p' ∷ ps') s''
Swaps-cons c {p = p} {p' = p'} r q = record {
  kept = same-cons r.plan_kept q.kept;
  within = q.within;
  paid = λ pid. ground (arith, r.same_pair, r.paid pid, q.paid pid);
  brought = λ n. ground (arith, r.same_pair, r.brought n, q.brought n);
  safe = λ n. omega (arith, r.safe n, q.safe n);
}

module _ (get_process : ℕ → Option ProcessView) (is_node_forbidden : ℕ → Bool) (c : PairPlanContext)
    (plans : List PairPlan) where
  swap_found-Charges :
      (p : PairPlan) (sel : Selected) (s : Staged) (m : Option ProcessView) (l : Lookup)
      → find_pair_pid_budget s.budgets p.pid ≡ l
      → All BudgetOk s.budgets
      → NodeWords c s.planned
      → let r = swap_found get_process is_node_forbidden c plans p sel s m l in
        Charges c p s r.0 r.2
  unfolding swap_found
  swap_found-Charges p sel s none l e v w = Charges-none c p s v
  swap_found-Charges p sel s (some x) (failed y) e v w = Charges-none c p s v
  swap_found-Charges p sel s (some x) (at i) e v w =
      let n = swap_amount x p sel.selected_from (swap_limit c i p s) in
      if_ind (λ (r : PairPlan × Selected × Staged). Charges c p s r.0 r.2)
        (is_swap_skipped is_node_forbidden x plans p) (λ _. Charges-none c p s v)
        λ _.
          charge_swap-Charges c i p s n (find_pair_pid_budget-HasBudget s.budgets p.pid i e) v w
            (swap_amount-le x p sel.selected_from (swap_limit c i p s)) sel

  swap_loop-Swaps :
      (ps : List PairPlan) (sel : Selected) (s : Staged)
      → All BudgetOk s.budgets
      → NodeWords c s.planned
      → let r = swap_loop get_process is_node_forbidden c plans ps sel s in Swaps c ps s r.0 r.1
  unfolding swap_loop swap_step
  swap_loop-Swaps [] sel s v w = record {
    kept = refl;
    within = v;
    paid = λ pid. omega arith;
    brought = λ n. omega arith;
    safe = λ n. omega arith;
  }
  swap_loop-Swaps (p ∷ ps) sel s v w =
      let l = find_pair_pid_budget s.budgets p.pid in
      let r =
        swap_found get_process is_node_forbidden c plans p (enter_process plans p.pid sel) s
          (get_process p.pid) l in
      let one : Charges c p s r.0 r.2 =
        swap_found-Charges p (enter_process plans p.pid sel) s (get_process p.pid) l refl v w in
      Swaps-cons c one
        (swap_loop-Swaps ps r.1 r.2 one.within λ n. ((w n).0, omega (arith, one.safe n, w n)))

-- When `BuildPairSwapPlans` returns 0 on budgets that are not overdrawn and on accounts of words,
-- nothing of the plans changes but the swaps; no process budget is overdrawn; each process pays
-- exactly twice the swaps of its plans; and each local node's planned pages grow by exactly the
-- swaps of its plans, and not beyond what is free above its reserve.
pub build_pair_swap_plans-Swaps :
    (get_process : ℕ → Option ProcessView) (is_node_forbidden : ℕ → Bool) (c : PairPlanContext)
    (plans : List PairPlan) (budgets : List PairPidBudget)
    (r : List PairPlan × List PairPidBudget × PairPlanContext)
    → All BudgetOk budgets
    → NodeWords c c.planned_pages
    → build_pair_swap_plans get_process is_node_forbidden c plans budgets ≡ ok r
    → Swaps c plans
        (record { budgets = budgets; planned = c.planned_pages })
        r.0
        (record { budgets = r.1; planned = r.2.planned_pages })
unfolding build_pair_swap_plans
build_pair_swap_plans-Swaps get_process is_node_forbidden c plans budgets r v w h =
    Ensures-elim Goal (build_pair_swap_plans get_process is_node_forbidden c plans budgets) r
      (if_ind (Ensures Goal) (is_size_invalid plans budgets) (λ _. tt)
        λ _.
          if_ind (Ensures Goal) (is_any_invalid get_process is_node_forbidden c budgets plans)
            (λ _. tt)
            λ _.
              swap_loop-Swaps get_process is_node_forbidden c plans plans
                (record { current_pid = u32_max; selected_from = λ _. 0 })
                (record { budgets = budgets; planned = c.planned_pages }) v w)
      h
  where
    Goal : List PairPlan × List PairPidBudget × PairPlanContext → Type 0
    Goal r =
        Swaps c plans (record { budgets = budgets; planned = c.planned_pages }) r.0
          (record { budgets = r.1; planned = r.2.planned_pages })
