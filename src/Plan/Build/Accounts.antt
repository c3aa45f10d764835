-- ===== src/Plan/Build/Accounts.antt =====
-- `FindPairPidBudget` returns the place of a budget of the process, and a payment changes that
-- budget alone.
use ubturbo.Plan.Build.{spend}
use mathlib.Core.Path.{subst}
use ubturbo.Prelude.{
  ◌<◌, ◌+◌, some, ℕ, zero, arith, none, List, [], ◌≤◌, suc, ◌^◌, ◌-◌, ◌∷◌, ◌≡◌, ◌==◌, if◌then◌else◌,
  All, length, set, inl, sym, inr, Bool-cases, u64,
}
use ubturbo.Plan.Types.{PairPidBudget, at, find_budget_loop, find_pair_pid_budget, budget_at}

-- A found index is in range and has the process's budget.
abbrev pub HasBudget : List PairPidBudget → ℕ → ℕ → Type 0
HasBudget bs pid k = (k < length bs) × ((budget_at bs k).pid ≡ pid)

find_budget_loop-some :
    (pid j k i : ℕ) (bs : List PairPidBudget) → find_budget_loop pid (some j) i bs ≡ at k → j ≡ k
unfolding find_budget_loop
find_budget_loop-some pid j k i [] h = cc
find_budget_loop-some pid j k i (b ∷ bs) h =
    ground (arith, h, find_budget_loop-some pid j k (i + 1) bs)

find_budget_loop-none :
    (pid k i : ℕ) (bs : List PairPidBudget)
    → find_budget_loop pid none i bs ≡ at k
    → (i ≤ k) × HasBudget bs pid (k - i)
unfolding find_budget_loop
find_budget_loop-none pid k i [] h = cc
find_budget_loop-none pid k i (b ∷ bs) h = elim (Bool-cases (b.pid == pid)) [
  | inl hit ↦
      let e : i ≡ k = find_budget_loop-some pid i k (i + 1) bs (ground (arith, h)) in
      let z : k - i ≡ 0 = omega (arith, e) in
      (omega (arith, e), subst (HasBudget (b ∷ bs) pid) (sym z) (omega arith, ground arith))
  | inr miss ↦
      let ih = find_budget_loop-none pid k (i + 1) bs (ground (arith, h)) in
      let z : k - i ≡ suc (k - (i + 1)) = omega (arith, ih.0) in
      (omega (arith, ih.0), subst (HasBudget (b ∷ bs) pid) (sym z) (omega (arith, ih.1.0), ih.1.1))
]

pub find_pair_pid_budget-HasBudget :
    (bs : List PairPidBudget) (pid k : ℕ) → find_pair_pid_budget bs pid ≡ at k → HasBudget bs pid k
unfolding find_pair_pid_budget
find_pair_pid_budget-HasBudget bs pid k h = ground (arith, find_budget_loop-none pid k 0 bs h)

-- The pages planned for a process, over all its budgets.
abbrev pub spent : ℕ → List PairPidBudget → ℕ
spent pid [] = 0
spent pid (b ∷ bs) = (if b.pid == pid then b.planned_pages else 0) + spent pid bs

pub spent-set :
    (pid : ℕ) (bs : List PairPidBudget) (i n : ℕ)
    → i < length bs
    → let b = budget_at bs i in
      spent pid (set bs i (record b { planned_pages = b.planned_pages + n }))
      ≡ spent pid bs + (if b.pid == pid then n else 0)
spent-set pid [] i n h = absurd (omega arith)
spent-set pid (b ∷ bs) zero n h = ground arith
spent-set pid (b ∷ bs) (suc i) n h = ground (arith, spent-set pid bs i n (omega arith))

-- A budget is not overdrawn, and its limit is a word.
abbrev pub BudgetOk : PairPidBudget → Type 0
BudgetOk b = (b.planned_pages ≤ b.max_migrate_pages) × (b.max_migrate_pages < 2 ^ 64)

pub All-budget_at :
    (bs : List PairPidBudget) (i : ℕ) → i < length bs → All BudgetOk bs → BudgetOk (budget_at bs i)
All-budget_at [] i h v = absurd (omega arith)
All-budget_at (b ∷ bs) zero h v = v.0
All-budget_at (b ∷ bs) (suc i) h v = All-budget_at bs i (omega arith) v.1

pub All-set :
    (bs : List PairPidBudget) (i : ℕ) (b : PairPidBudget)
    → BudgetOk b
    → All BudgetOk bs
    → All BudgetOk (set bs i b)
All-set [] i b h v = tt
All-set (x ∷ bs) zero b h v = (h, v.1)
All-set (x ∷ bs) (suc i) b h v = (v.0, All-set bs i b h v.1)

-- A payment that the limit allows is exact.
module _ (bs : List PairPidBudget) (i n : ℕ) (h : i < length bs) (v : All BudgetOk bs)
    (fits : (budget_at bs i).planned_pages + n ≤ (budget_at bs i).max_migrate_pages) where
  exact : u64 ((budget_at bs i).planned_pages + n) ≡ (budget_at bs i).planned_pages + n
  exact = omega (arith, (All-budget_at bs i h v).1)

  pub spend-BudgetOk : All BudgetOk (spend bs i n)
  spend-BudgetOk = All-set bs i _ (omega (arith, exact), (All-budget_at bs i h v).1) v

  pub spent-spend :
      (pid : ℕ)
      → spent pid (spend bs i n) ≡ spent pid bs + (if (budget_at bs i).pid == pid then n else 0)
  spent-spend pid = rw exact (spent-set pid bs i n h)
