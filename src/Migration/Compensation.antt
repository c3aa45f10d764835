-- ===== src/Migration/Compensation.antt =====
-- What a grouped process swapped in each direction between two nodes, and the migration that makes
-- up for a difference: `AddGroupSwapPairStat`, `AddGroupSwapCompPlan` and
-- `BuildGroupedSwapCompPlans`. Which processes are grouped is an argument.
pub mod Totals
use ubturbo.Errno.{enospc}
use ubturbo.Result.{Result, ok, ◌>>=◌, err}
use ubturbo.Migration.Message.{MigEntry, get_mig_list_success_pages}
use ubturbo.Prelude.{
  ◌-◌, [], ◌||◌, ◌&&◌, ◌++◌, true, ◌+◌, List, false, ◌∷◌, Bool, not, ℕ, if◌then◌else◌, leb, ltb,
  ◌==◌, length, int_lt, u64,
}
use mathlib.Core.List.{◌++◌}

abbrev pub max_group_swap_comp_plans : ℕ
max_group_swap_comp_plans = 800

pub record SwapPairStat : Type 0 where
  pub pid : ℕ
  pub local_nid : ℕ
  pub remote_nid : ℕ
  pub local_to_remote_success : ℕ
  pub remote_to_local_success : ℕ
  pub has_local_to_remote : Bool
  pub has_remote_to_local : Bool

pub record CompPlan : Type 0 where
  pub pid : ℕ
  pub from : ℕ
  pub to : ℕ
  pub need : ℕ

abbrev pub is_pair : ℕ → ℕ → ℕ → SwapPairStat → Bool
is_pair pid l r s = (s.pid == pid) && (s.local_nid == l) && (s.remote_nid == r)

unfoldable pub has_stat : ℕ → ℕ → ℕ → List SwapPairStat → Bool
has_stat pid l r [] = false
has_stat pid l r (s ∷ ss) = is_pair pid l r s || has_stat pid l r ss

-- A change of the stat that `FindGroupSwapPairStat` finds.
unfoldable pub change_stat :
    (SwapPairStat → SwapPairStat) → ℕ → ℕ → ℕ → List SwapPairStat → List SwapPairStat
change_stat f pid l r [] = []
change_stat f pid l r (s ∷ ss) =
    let rest = change_stat f pid l r ss in if is_pair pid l r s then f s ∷ ss else s ∷ rest

abbrev pub fresh_stat : ℕ → ℕ → ℕ → SwapPairStat
fresh_stat pid l r = record {
  pid = pid;
  local_nid = l;
  remote_nid = r;
  local_to_remote_success = 0;
  remote_to_local_success = 0;
  has_local_to_remote = false;
  has_remote_to_local = false;
}

-- `AddGroupSwapPairStat`, and the change of the stat at the index that it returns.
unfoldable pub with_stat :
    ℕ → (SwapPairStat → SwapPairStat) → ℕ → ℕ → ℕ → List SwapPairStat → Result (List SwapPairStat)
unfolding has_stat change_stat
with_stat max_stats f pid l r ss =
    if has_stat pid l r ss
    then ok (change_stat f pid l r ss)
    else if leb max_stats (length ss)
    then err enospc
    else ok (ss ++ (f (fresh_stat pid l r) ∷ []))

abbrev pub is_local_to_remote : ℕ → MigEntry → Bool
is_local_to_remote nr_local_numa m = int_lt m.from nr_local_numa && not (int_lt m.to nr_local_numa)

abbrev pub is_remote_to_local : ℕ → MigEntry → Bool
is_remote_to_local nr_local_numa m = not (int_lt m.from nr_local_numa) && int_lt m.to nr_local_numa

abbrev pub add_out : ℕ → SwapPairStat → SwapPairStat
add_out n s = record s {
  local_to_remote_success = u64 (s.local_to_remote_success + n);
  has_local_to_remote = true;
}

abbrev pub add_back : ℕ → SwapPairStat → SwapPairStat
add_back n s = record s {
  remote_to_local_success = u64 (s.remote_to_local_success + n);
  has_remote_to_local = true;
}

-- One result. `is_grouped` is false for a process that is not found.
unfoldable pub count_entry :
    ℕ → (ℕ → Bool) → ℕ → MigEntry → List SwapPairStat → Result (List SwapPairStat)
unfolding with_stat get_mig_list_success_pages
count_entry max_stats is_grouped nr_local_numa m ss =
    let n = get_mig_list_success_pages m in
    if not (is_grouped m.pid)
    then ok ss
    else if is_local_to_remote nr_local_numa m
    then with_stat max_stats (add_out n) m.pid m.from m.to ss
    else if is_remote_to_local nr_local_numa m
    then with_stat max_stats (add_back n) m.pid m.to m.from ss
    else ok ss

unfoldable pub count_entries :
    ℕ → (ℕ → Bool) → ℕ → List MigEntry → List SwapPairStat → Result (List SwapPairStat)
unfolding count_entry
count_entries max_stats is_grouped nr_local_numa [] ss = ok ss
count_entries max_stats is_grouped nr_local_numa (m ∷ ms) ss =
    count_entry max_stats is_grouped nr_local_numa m ss
    >>= count_entries max_stats is_grouped nr_local_numa ms

-- `AddGroupSwapCompPlan`.
abbrev pub add_comp_plan : ℕ → CompPlan → List CompPlan → List CompPlan
add_comp_plan max_plans p ps =
    if (p.need == 0) || leb max_plans (length ps) then ps else ps ++ (p ∷ [])

unfoldable pub comp_loop : ℕ → List SwapPairStat → List CompPlan → List CompPlan
comp_loop max_plans [] ps = ps
comp_loop max_plans (s ∷ ss) ps =
    let out = s.local_to_remote_success in
    let back = s.remote_to_local_success in
    comp_loop max_plans ss (
      if not s.has_local_to_remote || not s.has_remote_to_local
      then ps
      else if ltb out back
      then add_comp_plan max_plans
          (record { pid = s.pid; from = s.local_nid; to = s.remote_nid; need = back - out }) ps
      else if ltb back out
      then add_comp_plan max_plans
          (record { pid = s.pid; from = s.remote_nid; to = s.local_nid; need = out - back }) ps
      else ps)

unfoldable pub build_grouped_swap_comp_plans :
    (ℕ → Bool) → ℕ → List MigEntry → Result (List CompPlan)
unfolding count_entries comp_loop
build_grouped_swap_comp_plans is_grouped nr_local_numa ms =
    count_entries max_group_swap_comp_plans is_grouped nr_local_numa ms [] >>= λ ss.
    ok (comp_loop max_group_swap_comp_plans ss [])
