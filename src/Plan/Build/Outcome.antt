-- ===== src/Plan/Build/Outcome.antt =====
-- `BuildPairPlans` as a whole: what it plans is in the right direction, is paid for, and fits.
use ubturbo.Prelude.{
  List, true, ◌-◌, ◌+◌, ℕ, ◌≡◌, [], ◌≤◌, ◌∷◌, if◌then◌else◌, ◌==◌, All, max, Option, arith, some,
  refl, ◌<◌, Bool, ◌^◌, ltb, none, not, if_ind, length,
}
use ubturbo.Plan.Types.{PairPlan, PairPlanContext, PairPidBudget, is_pair_plan_direction_valid}
use ubturbo.Plan.Build.{
  Staged, plan_pages, plan_step, plan_loop, build_pair_plans, is_plan_invalid, found_index,
  is_input_invalid, check_budgets, has_pid,
}
use ubturbo.Result.{
  ok, err, Ensures, Result, Ensures-bind, reject_if, Ensures-any, ◌>>◌, Ensures-elim,
}
use ubturbo.Errno.{einval, enomem}
use ubturbo.Plan.Types.{at, failed, Lookup, find_pair_pid_budget}
use ubturbo.Plan.Build.Accounts.{HasBudget, spent, BudgetOk, find_pair_pid_budget-HasBudget}
use ubturbo.Plan.Build.Step.{
  PlanWords, NodeWords, moved, plan_pages_valid, plan_pages_node, plan_pages_safe, plan_pages-Paid,
  plan_pages_keeps,
}

-- The pages moved by the plans of a process, and those that the plans bring to a node.
abbrev pub moved_by : ℕ → List PairPlan → ℕ
moved_by pid [] = 0
moved_by pid (p ∷ ps) = (if p.pid == pid then moved p else 0) + moved_by pid ps

abbrev pub promoted_to : ℕ → List PairPlan → ℕ
promoted_to nid [] = 0
promoted_to nid (p ∷ ps) = (if p.local_nid == nid then p.promote_pages else 0) + promoted_to nid ps

-- A plan in the direction of its target that asks for no more than the difference, without a swap.
abbrev pub IsPlanned : PairPlan → Type 0
IsPlanned p = (is_pair_plan_direction_valid p ≡ true) × (p.swap_pages ≡ 0)

-- What planning does to the accounts `s`, leaving `s'`.
pub record Settles (c : PairPlanContext) (s : Staged) (ps : List PairPlan) (s' : Staged)
    : Type 0 where
  pub directed : All IsPlanned ps
  pub within : All BudgetOk s'.budgets
  pub paid : (pid : ℕ) → spent pid s'.budgets ≡ spent pid s.budgets + moved_by pid ps
  pub brought : (n : ℕ) → s'.planned n ≡ s.planned n + promoted_to n ps
  pub safe : (n : ℕ) → s'.planned n ≤ max (s.planned n) (c.free_pages n - c.safety_reserve_pages n)

module _ (c : PairPlanContext) (p : PairPlan) (s : Staged) (i : ℕ)
    (found : HasBudget s.budgets p.pid i) (v : All BudgetOk s.budgets) (w : PlanWords p)
    (nodes : NodeWords c s.planned) where
  plan_pages-Settles : Settles c s ((plan_pages c i p s).0 ∷ []) (plan_pages c i p s).1
  plan_pages-Settles = record {
    directed = ((plan_pages_valid c i p s w, keeps.2), tt);
    within = (plan_pages-Paid c i p s found.0 v w).0;
    paid = λ pid. ground (arith, found.1, keeps.0, (plan_pages-Paid c i p s found.0 v w).1 pid);
    brought = λ n. ground (arith, keeps.1, plan_pages_node c i p s w nodes n);
    safe = plan_pages_safe c i p s nodes;
  }
    where
      keeps :
          let p' = (plan_pages c i p s).0 in
          (p'.pid ≡ p.pid) × (p'.local_nid ≡ p.local_nid) × (p'.swap_pages ≡ 0)
      keeps = plan_pages_keeps c i p s

-- One plan first, then the rest.
Settles-cons :
    (c : PairPlanContext) {s s' s'' : Staged} {p : PairPlan} {ps : List PairPlan}
    → Settles c s (p ∷ []) s'
    → Settles c s' ps s''
    → Settles c s (p ∷ ps) s''
Settles-cons c r q = record {
  directed = (r.directed.0, q.directed);
  within = q.within;
  paid = λ pid. omega (arith, r.paid pid, q.paid pid);
  brought = λ n. omega (arith, r.brought n, q.brought n);
  safe = λ n. omega (arith, r.safe n, q.safe n);
}

-- The accounts of the nodes stay words.
Settles-NodeWords :
    (c : PairPlanContext) {s s' : Staged} {ps : List PairPlan}
    → Settles c s ps s'
    → NodeWords c s.planned
    → NodeWords c s'.planned
Settles-NodeWords c r nodes n = ((nodes n).0, omega (arith, r.safe n, nodes n))

module _ (c : PairPlanContext) where
  plan_step-Settles :
      (before : Option PairPlan) (p : PairPlan) (s : Staged)
      → All BudgetOk s.budgets
      → PlanWords p
      → NodeWords c s.planned
      → Ensures (λ (p', s'). Settles c s (p' ∷ []) s') (plan_step c before p s)
  unfolding plan_step
  plan_step-Settles before p s v w nodes =
      let P : ℕ → Type 0 = HasBudget s.budgets p.pid in
      let Q : PairPlan × Staged → Type 0 = λ r. Settles c s (r.0 ∷ []) r.1 in
      Ensures-bind (λ (_ : Unit {0}). Unit {0}) Q (reject_if (is_plan_invalid c before p) einval) _
        (Ensures-any (reject_if (is_plan_invalid c before p) einval))
        λ _ _.
          Ensures-bind P Q (found_index (find_pair_pid_budget s.budgets p.pid)) _
            (found (find_pair_pid_budget s.budgets p.pid) refl)
            λ i h. plan_pages-Settles c p s i h v w nodes
    where
      found :
          (l : Lookup)
          → find_pair_pid_budget s.budgets p.pid ≡ l
          → Ensures (HasBudget s.budgets p.pid) (found_index l)
      found (at i) e = find_pair_pid_budget-HasBudget s.budgets p.pid i e
      found (failed x) e = tt

  plan_loop-Settles :
      (before : Option PairPlan) (ps : List PairPlan) (s : Staged)
      → All BudgetOk s.budgets
      → All PlanWords ps
      → NodeWords c s.planned
      → Ensures (λ (ps', s'). Settles c s ps' s') (plan_loop c before ps s)
  unfolding plan_loop
  plan_loop-Settles before [] s v w nodes = record {
    directed = tt;
    within = v;
    paid = λ pid. omega arith;
    brought = λ n. omega arith;
    safe = λ n. omega arith;
  }
  plan_loop-Settles before (p ∷ ps) s v w nodes =
      let One : PairPlan × Staged → Type 0 = λ r. Settles c s (r.0 ∷ []) r.1 in
      let All_of : List PairPlan × Staged → Type 0 = λ r. Settles c s r.0 r.1 in
      Ensures-bind One All_of (plan_step c before p s) _ (plan_step-Settles before p s v w.0 nodes)
        λ (p', s') one.
          Ensures-bind (λ r. Settles c s' r.0 r.1) All_of (plan_loop c (some p') ps s') _
            (plan_loop-Settles (some p') ps s' one.within w.1 (Settles-NodeWords c one nodes))
            λ r rest. Settles-cons c one rest

-- The check of the budgets leaves none that is overdrawn.
check_budgets-BudgetOk :
    (bs : List PairPidBudget)
    → All (λ (b : PairPidBudget). b.max_migrate_pages < 2 ^ 64) bs
    → Ensures (λ _. All BudgetOk bs) (check_budgets bs)
unfolding check_budgets
check_budgets-BudgetOk [] h = tt
check_budgets-BudgetOk (b ∷ bs) h = go (check_budgets bs) (check_budgets-BudgetOk bs h.1)
  where
    go :
        (m : Result (Unit {0}))
        → Ensures (λ _. All BudgetOk bs) m
        → Ensures
            (λ _. All BudgetOk (b ∷ bs))
            (reject_if (ltb b.max_migrate_pages b.planned_pages) einval
              >> (reject_if (has_pid b.pid bs) einval >> m))
    go (ok x) v = ground (arith, h.0, v)
    go (err e) v = ground arith

-- Planning as the caller sees it.
abbrev pub Outcome :
    PairPlanContext
    → List PairPidBudget
    → List PairPlan × List PairPidBudget × PairPlanContext
    → Type 0
Outcome c budgets (plans, budgets', c') =
    Settles c (record { budgets = budgets; planned = c.planned_pages }) plans
      (record { budgets = budgets'; planned = c'.planned_pages })

-- `qsort` only rearranges: what holds of all plans holds of all sorted plans.
abbrev pub Rearranges : (List PairPlan → List PairPlan) → Type 1
Rearranges qsort = (P : PairPlan → Type 0) (l : List PairPlan) → All P l → All P (qsort l)

-- When `BuildPairPlans` returns 0 for at least one plan of words, the plans are in the direction of
-- their targets and ask for no more than the difference, with no swap; no process budget is
-- overdrawn; each process budget has paid exactly for the pages that its plans move; and each node's
-- planned pages grew by exactly those promoted to it, and not beyond what is free above its reserve.
pub build_pair_plans-Outcome :
    (qsort : List PairPlan → List PairPlan) (can_alloc : Bool) (plan_cap : ℕ) (c : PairPlanContext)
    (inputs : List PairPlan) (budgets : List PairPidBudget)
    (r : List PairPlan × List PairPidBudget × PairPlanContext)
    → Rearranges qsort
    → 0 < length inputs
    → All (λ (b : PairPidBudget). b.max_migrate_pages < 2 ^ 64) budgets
    → All PlanWords inputs
    → NodeWords c c.planned_pages
    → build_pair_plans qsort can_alloc plan_cap c inputs budgets ≡ ok r
    → Outcome c budgets r
unfolding build_pair_plans
build_pair_plans-Outcome qsort can_alloc plan_cap c inputs budgets r sorts some_input v w nodes =
    Ensures-elim (Outcome c budgets) (build_pair_plans qsort can_alloc plan_cap c inputs budgets) r
      (if_ind (Ensures (Outcome c budgets)) (is_input_invalid c plan_cap inputs budgets) (λ _. tt)
        λ _.
          if_ind (Ensures (Outcome c budgets)) (length inputs == 0) (λ e. absurd (ground arith))
            λ _.
              Ensures-bind (λ (_ : Unit {0}). Unit {0}) (Outcome c budgets)
                (reject_if (not can_alloc) enomem) _
                (Ensures-any (reject_if (not can_alloc) enomem))
                λ _ _.
                  Ensures-bind (λ _. All BudgetOk budgets) (Outcome c budgets)
                    (check_budgets budgets) _ (check_budgets-BudgetOk budgets v)
                    λ _ checked.
                      Ensures-bind (λ r. Settles c start r.0 r.1) (Outcome c budgets)
                        (plan_loop c none (qsort inputs) start) _
                        (plan_loop-Settles c none (qsort inputs) start checked
                          (sorts PlanWords inputs w) nodes)
                        λ r h. h)
  where
    start : Staged
    start = record { budgets = budgets; planned = c.planned_pages }
