-- ===== src/Plan/Types.antt =====
-- plugins/smap/src/user/manage/manage.h: the plan of one pair of nodes, the budgets of the
-- destination nodes and those of the processes; and the choices in
-- plugins/smap/src/user/strategy/migration.c that depend on these alone.
use ubturbo.Prelude.{
  [], Bool, Option, some, true, ◌+◌, none, ◌-◌, ℕ, List, suc, false, ◌∷◌, zero, ◌&&◌, leb,
  if◌then◌else◌, ltb, ◌==◌, int_lt,
}
use ubturbo.Errno.{Errno, einval, enoent}

pub record PairPlan : Type 0 where
  pub pid : ℕ
  pub local_nid : ℕ
  pub remote_nid : ℕ
  pub remote_index : ℕ
  pub target_pages : ℕ
  pub actual_pages : ℕ
  pub demote_pages : ℕ
  pub promote_pages : ℕ
  pub swap_pages : ℕ

pub record PairPlanContext : Type 0 where
  pub nr_local_numa : ℕ
  pub free_pages : ℕ → ℕ
  pub safety_reserve_pages : ℕ → ℕ
  pub planned_pages : ℕ → ℕ

pub record PairPidBudget : Type 0 where
  pub pid : ℕ
  pub max_migrate_pages : ℕ
  pub planned_pages : ℕ

-- -1, 0 and 1.
pub data Sign : Type 0 where
  less same more : Sign

abbrev compare_int : ℕ → ℕ → Sign → Sign
compare_int a b next = if a == b then next else if int_lt a b then less else more

unfoldable pub compare_pair_plan : PairPlan → PairPlan → Sign
compare_pair_plan l r =
    compare_int l.pid r.pid
      (compare_int l.local_nid r.local_nid (compare_int l.remote_nid r.remote_nid same))

-- A non-negative index, or an error number.
pub data Lookup : Type 0 where
  at : ℕ → Lookup
  failed : Errno → Lookup

-- The loop of `FindPairPidBudget` with its `found`, none for -1, from index `i` on.
unfoldable pub find_budget_loop : ℕ → Option ℕ → ℕ → List PairPidBudget → Lookup
find_budget_loop pid none i [] = failed enoent
find_budget_loop pid (some k) i [] = at k
find_budget_loop pid found i (b ∷ bs) = elim (b.pid == pid) [
  | false ↦ find_budget_loop pid found (i + 1) bs
  | true ↦ elim found [ none ↦ find_budget_loop pid (some i) (i + 1) bs | some k ↦ failed einval ]
]

unfoldable pub find_pair_pid_budget : List PairPidBudget → ℕ → Lookup
unfolding find_budget_loop
find_pair_pid_budget budgets pid = find_budget_loop pid none 0 budgets

unfoldable pub is_pair_plan_direction_valid : PairPlan → Bool
is_pair_plan_direction_valid p =
    if ltb 0 p.demote_pages && ltb 0 p.promote_pages
    then false
    else if ltb p.actual_pages p.target_pages
    then (p.promote_pages == 0) && leb p.demote_pages (p.target_pages - p.actual_pages)
    else if ltb p.target_pages p.actual_pages
    then (p.demote_pages == 0) && leb p.promote_pages (p.actual_pages - p.target_pages)
    else (p.demote_pages == 0) && (p.promote_pages == 0)

-- `pidBudgets[i]`; the indices that are used are in range.
abbrev pub budget_at : List PairPidBudget → ℕ → PairPidBudget
budget_at [] i = record { pid = 0; max_migrate_pages = 0; planned_pages = 0 }
budget_at (b ∷ bs) zero = b
budget_at (b ∷ bs) (suc i) = budget_at bs i
