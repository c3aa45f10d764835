-- ===== src/Strategy/Tests.antt =====
-- The strategy at concrete inputs: a local node with four pages and a remote node with three.
use ubturbo.Strategy.Select.Exact.{IsBest, build_select_k_mlist_addr-IsBest}
use ubturbo.Strategy.Select.PairLoop.{pair_migration_strategy-IsSound}
use ubturbo.Strategy.Select.Sound.{IsSound}
use ubturbo.Strategy.Select.Budget.{
  Within, IsEmpty, pair_migration_strategy-Within, pair_migration_strategy-IsEmpty,
}
use ubturbo.Strategy.Threshold.Split.{SplitsAt, find_threshold-short, find_threshold-SplitsAt}
use ubturbo.Strategy.Select.Consistent.{counted, IsConsistent}
use ubturbo.Strategy.Threshold.Histogram.{histogram}
use ubturbo.Prelude.{
  some, true, false, none, ◌&&◌, ◌∷◌, ℕ, List, refl, ◌≡◌, [], ◌==◌, if◌then◌else◌, length, ◌≢◌,
  arith, ◌^◌, ◌<◌, All,
}
use ubturbo.Errno.{done, enomem}
use ubturbo.Strategy.Actc.{ActcData, select_top_k, select_bottom_k}
use ubturbo.Strategy.Threshold.{find_threshold, visited}
use ubturbo.Strategy.Select.{
  Params, Work, ScanNode, MigList, process_type, ub_bw_normal, pair_migration_strategy,
  build_select_k_mlist_addr, set_list,
}

abbrev page : ℕ → ActcData
page f = record { freq = f; is_white_list_page = false; is_selected = false; prior = 0 }

abbrev local_pages : List ActcData
local_pages = page 5 ∷ page 0 ∷ page 3 ∷ page 0 ∷ []

abbrev remote_pages : List ActcData
remote_pages = page 9 ∷ page 1 ∷ page 7 ∷ []

abbrev node_of : List ActcData → ScanNode
node_of ps = record {
  actc_len = length ps;
  actc_data = some ps;
  freq_buckets = histogram (counted true) ps;
  selected_buckets = λ _. 0;
}

abbrev absent : ScanNode
absent = record { actc_len = 0; actc_data = none; freq_buckets = λ _. 0; selected_buckets = λ _. 0 }

abbrev empty_list : MigList
empty_list = record { nr = 0; addr = none }

abbrev start : Work
start = record {
  scan =
      λ n. if n == 0 then node_of local_pages else if n == 1 then node_of remote_pages else absent;
  mlist = λ _ _. empty_list;
  numa_offset = λ _. 0;
}

-- One local node; two pages go out to node 1 and one comes back.
abbrev planned : Params
planned = record {
  pid_type = process_type;
  nr_local_numa = 1;
  nr_migrate_pages = λ a b. if a == 0 && b == 1 then 2 else if a == 1 && b == 0 then 1 else 0;
  ub_bw_restrict = λ _. ub_bw_normal;
  is_node_forbidden = λ _. false;
  can_alloc = λ _ _. true;
}

coldest_go_out :
    ((pair_migration_strategy planned start).1.mlist 0 1)
    ≡ record { nr = 2; addr = some (1 ∷ 3 ∷ []) }
unfolding pair_migration_strategy
coldest_go_out = refl

hottest_comes_in :
    ((pair_migration_strategy planned start).1.mlist 1 0) ≡ record { nr = 1; addr = some (0 ∷ []) }
unfolding pair_migration_strategy
hottest_comes_in = refl

ones_small : (is : List ℕ) → All (λ i. 1 < 2 ^ 32) is
ones_small [] = tt
ones_small (i ∷ is) = (omega arith, ones_small is)

find_threshold-SplitsAt_example :
    SplitsAt select_top_k (λ _. 1) 3 (visited select_top_k) (find_threshold select_top_k 3 (λ _. 1))
    × ((find_threshold select_top_k 3 (λ _. 1)).0 < 256)
find_threshold-SplitsAt_example =
    find_threshold-SplitsAt select_top_k 3 (λ _. 1) (ones_small (visited select_top_k))
      (omega arith) (omega arith)

find_threshold-short_example : find_threshold select_bottom_k 300 (λ _. 1) ≡ (256, 0)
find_threshold-short_example =
    find_threshold-short select_bottom_k 300 (λ _. 1) (ones_small (visited select_bottom_k))
      (omega arith)

local_pages-IsConsistent : IsConsistent true (node_of local_pages) local_pages
local_pages-IsConsistent = record {
  stored = refl;
  whole = refl;
  small = omega arith;
  bytes = omega arith;
  clean = (λ h. refl, (λ h. refl, (λ h. refl, (λ h. refl, tt))));
  freq_counts = λ f. refl;
  selected_counts = λ f. refl;
}

abbrev asked : Work
asked = set_list start 0 1 (record { nr = 2; addr = none })

build_select_k_mlist_addr-IsBest_example :
    let (status, w') = build_select_k_mlist_addr planned asked 0 1 select_bottom_k in
    (ps' : List ActcData) × (addr : List ℕ) × (status ≡ done)
    × (w'.mlist 0 1 ≡ record { nr = 2; addr = some addr })
    × IsBest select_bottom_k true 2 local_pages addr ps'
    × IsConsistent true (w'.scan 0) ps'
    × ((n : ℕ) → n ≢ 0 → w'.scan n ≡ asked.scan n)
build_select_k_mlist_addr-IsBest_example =
    build_select_k_mlist_addr-IsBest planned asked 0 1 select_bottom_k 2 local_pages refl refl
      local_pages-IsConsistent refl (omega arith) (omega arith)

start-IsSound : IsSound start
start-IsSound = record {
  data_len = λ n ps h. ground (arith, h);
  listed_marked = λ from to a h. cc;
  disjoint = λ from to to' a ne h. refl;
  rising = λ from to. tt;
}

pair_migration_strategy-IsSound_example : IsSound (pair_migration_strategy planned start).1
pair_migration_strategy-IsSound_example =
    pair_migration_strategy-IsSound planned start start-IsSound

pair_migration_strategy-Within_example : Within planned (pair_migration_strategy planned start).1
pair_migration_strategy-Within_example = pair_migration_strategy-Within planned start (λ a b. refl)

-- The buffer of the second list cannot be had.
abbrev no_memory : Params
no_memory = record planned { can_alloc = λ a b. a == 0 }

pair_migration_strategy-IsEmpty_example : IsEmpty (pair_migration_strategy no_memory start).1
unfolding pair_migration_strategy
pair_migration_strategy-IsEmpty_example =
    pair_migration_strategy-IsEmpty no_memory start (pair_migration_strategy no_memory start).1
      enomem (λ a b. refl) refl
