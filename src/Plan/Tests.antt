-- ===== src/Plan/Tests.antt =====
-- The plans at concrete inputs: one local node, one remote node, one process.
use ubturbo.Plan.Apply.Outcome.{AllApplied, apply_pair_plans_for_state-AllApplied}
use ubturbo.Plan.Apply.Stages.{planned}
use ubturbo.Plan.Apply.{PlannedProcess, apply_pair_plans_for_state, write_pages}
use ubturbo.Plan.Swap.Build.Outcome.{Swaps, build_pair_swap_plans-Swaps}
use ubturbo.Plan.Swap.Count.Rounds.{total}
use ubturbo.Plan.Swap.Count.Greatest.{IsGreatest, count_pair_swap_pages-IsGreatest}
use ubturbo.Plan.Swap.Count.Fuel.{count_pair_swap_pages_total}
use ubturbo.Result.{ok}
use ubturbo.Plan.Swap.Build.{build_pair_swap_plans}
use ubturbo.Plan.Build.{build_pair_plans}
use ubturbo.Plan.Types.{PairPidBudget, PairPlanContext, PairPlan}
use ubturbo.Plan.Build.Outcome.{Outcome, build_pair_plans-Outcome}
use ubturbo.Plan.Swap.Count.{ProcessView, pairing_start, count_pair_swap_pages}
use ubturbo.Prelude.{
  none, List, [], ◌≡◌, ℕ, arith, some, true, ◌∷◌, Option, refl, false, ◌==◌, if◌then◌else◌, update,
}

abbrev wants_out : PairPlan
wants_out = record {
  pid = 7;
  local_nid = 0;
  remote_nid = 1;
  remote_index = 0;
  target_pages = 5;
  actual_pages = 2;
  demote_pages = 0;
  promote_pages = 0;
  swap_pages = 0;
}

abbrev context : PairPlanContext
context = record {
  nr_local_numa = 1;
  free_pages = λ _. 10;
  safety_reserve_pages = λ _. 4;
  planned_pages = λ _. 0;
}

abbrev budget : PairPidBudget
budget = record { pid = 7; max_migrate_pages = 9; planned_pages = 0 }

abbrev goes_out : PairPlan
goes_out = record wants_out { demote_pages = 3 }

abbrev after_out : List PairPlan × List PairPidBudget × PairPlanContext
after_out = (goes_out ∷ [], record budget { planned_pages = 3 } ∷ [], context)

three_go_out :
    build_pair_plans (λ l. l) true 4 context (wants_out ∷ []) (budget ∷ []) ≡ ok after_out
unfolding build_pair_plans
three_go_out = refl

build_pair_plans-Outcome_example : Outcome context (budget ∷ []) after_out
build_pair_plans-Outcome_example =
    build_pair_plans-Outcome (λ l. l) true 4 context (wants_out ∷ []) (budget ∷ []) after_out
      (λ P l h. h) (omega arith) (omega arith, tt) (omega arith, tt) (λ n. omega arith) three_go_out

-- Local pages with freq 0, remote pages with freq 3.
abbrev process : ProcessView
process = record {
  enable_swap = true;
  group_enabled = false;
  has_data = λ _. true;
  actc_len = λ _. 8;
  freq_buckets = λ n f. if n == 0 then (if f == 0 then 4 else 0) else (if f == 3 then 4 else 0);
  remote_hot_num = λ _. 0;
}

one_pair : count_pair_swap_pages process 0 1 3 0 ≡ some 1
unfolding count_pair_swap_pages
one_pair = refl

one_page_left : total (pairing_start process 0 1 3 0).local_buckets 256 ≡ 1
unfolding total pairing_start
one_page_left = refl

count_pair_swap_pages-IsGreatest_example :
    let s = pairing_start process 0 1 3 0 in IsGreatest s.local_buckets s.remote_buckets 1
count_pair_swap_pages-IsGreatest_example =
    count_pair_swap_pages-IsGreatest process 0 1 3 0 1 refl refl (omega arith) (omega arith)
      (omega (arith, one_page_left)) one_pair

count_pair_swap_pages_total_example : (n : ℕ) × (count_pair_swap_pages process 0 1 3 0 ≡ some n)
count_pair_swap_pages_total_example = count_pair_swap_pages_total process 0 1 3 0

abbrev only_process : ℕ → Option ProcessView
only_process pid = if pid == 7 then some process else none

abbrev after_swap : List PairPlan × List PairPidBudget × PairPlanContext
after_swap = (
  record goes_out { swap_pages = 1 } ∷ [],
  record budget { planned_pages = 5 } ∷ [],
  record context { planned_pages = update (λ _. 0) 0 1 },
)

one_swap :
    build_pair_swap_plans only_process
      (λ _. false)
      context
      (goes_out ∷ [])
      (record budget { planned_pages = 3 } ∷ [])
    ≡ ok after_swap
unfolding build_pair_swap_plans
one_swap = refl

build_pair_swap_plans-Swaps_example :
    Swaps context
      (goes_out ∷ [])
      (record { budgets = record budget { planned_pages = 3 } ∷ []; planned = λ _. 0 })
      (record goes_out { swap_pages = 1 } ∷ [])
      (record { budgets = record budget { planned_pages = 5 } ∷ []; planned = update (λ _. 0) 0 1 })
build_pair_swap_plans-Swaps_example =
    build_pair_swap_plans-Swaps only_process (λ _. false) context (goes_out ∷ [])
      (record budget { planned_pages = 3 } ∷ []) after_swap (omega arith, tt) (λ n. omega arith)
      one_swap

abbrev one_process : List PlannedProcess
one_process =
    record {
      pid = 7;
      is_normal_scan = true;
      group_enabled = false;
      is_migrating = true;
      nr_migrate_pages = λ _ _. 0;
    }
    ∷ []

-- Three pages go out and none comes back.
abbrev one_applied : List PlannedProcess
one_applied =
    record {
      pid = 7;
      is_normal_scan = true;
      group_enabled = false;
      is_migrating = true;
      nr_migrate_pages = write_pages (write_pages (λ _ _. 0) 0 1 3) 1 0 0;
    }
    ∷ []

applies : apply_pair_plans_for_state true 1 one_process (goes_out ∷ []) ≡ ok one_applied
unfolding apply_pair_plans_for_state
applies = refl

apply_pair_plans_for_state-AllApplied_example :
    AllApplied (planned (goes_out ∷ [])) one_process one_applied
apply_pair_plans_for_state-AllApplied_example =
    apply_pair_plans_for_state-AllApplied true 1 one_process (goes_out ∷ []) one_applied
      (omega arith, tt) applies
