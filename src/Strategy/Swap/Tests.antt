-- ===== src/Strategy/Swap/Tests.antt =====
-- The search on two nodes with four pages each.
use ubturbo.Strategy.Swap.Search.{IsEdge, cal_low_migrate_num_by_buckets-IsEdge}
use ubturbo.Strategy.Swap.{cal_low_migrate_num_by_buckets, SwapParams, is_worth, swap_cap}
use ubturbo.Prelude.{some, ℕ, refl, false, ◌≡◌, ◌==◌, if◌then◌else◌}

abbrev cold_and_hot : SwapParams
cold_and_hot = record {
  zero_freq_migrate_enable = false;
  freq_wt = 1;
  slow_thred = 1;
  l1_buckets = λ f. if f == 0 then 3 else if f == 9 then 1 else 0;
  l2_buckets = λ f. if f == 5 then 2 else if f == 0 then 2 else 0;
}

two_swap : cal_low_migrate_num_by_buckets cold_and_hot 4 4 4 ≡ some 2
unfolding cal_low_migrate_num_by_buckets
two_swap = refl

cal_low_migrate_num_by_buckets-IsEdge_example :
    (n : ℕ) × ((cal_low_migrate_num_by_buckets cold_and_hot 4 4 4 ≡ some n)
      × IsEdge (is_worth cold_and_hot) (swap_cap 4 4 4) n)
cal_low_migrate_num_by_buckets-IsEdge_example =
    cal_low_migrate_num_by_buckets-IsEdge cold_and_hot 4 4 4
