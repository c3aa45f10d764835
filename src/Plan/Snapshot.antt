-- ===== src/Plan/Snapshot.antt =====
-- `CollectNodeFreeSnapshot`: the free pages of the local nodes, with no reserve and nothing planned.
-- The two functions give the free pages of a node, huge and small.
use ubturbo.Errno.{einval}
use ubturbo.Limits.{local_numa_num, max_nodes, remote_numa_num}
use ubturbo.Plan.Types.{PairPlanContext}
use ubturbo.Result.{Result, err, ok}
use ubturbo.Prelude.{Bool, ◌+◌, ℕ, ◌||◌, if◌then◌else◌, ◌==◌, ltb, is_negative}

unfoldable pub collect_node_free_snapshot : Bool → ℕ → (ℕ → ℕ) → (ℕ → ℕ) → Result PairPlanContext
collect_node_free_snapshot huge_page nr_local_numa huge_free small_free =
    if is_negative nr_local_numa
      || (nr_local_numa == 0)
      || ltb local_numa_num nr_local_numa
      || ltb max_nodes (nr_local_numa + remote_numa_num)
    then err einval
    else ok (record {
      nr_local_numa = nr_local_numa;
      free_pages = λ nid.
          if ltb nid nr_local_numa
          then (if huge_page then huge_free nid else small_free nid)
          else 0;
      safety_reserve_pages = λ _. 0;
      planned_pages = λ _. 0;
    })
