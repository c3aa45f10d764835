-- ===== src/Strategy/Swap.antt =====
-- How many pages a virtual machine swaps: `FindKthFreqAsc`, `FindKthFreqDesc` and
-- `CalLowMigrateNumByBuckets`. The configuration is an argument.
pub mod Search
mod Tests
use ubturbo.Strategy.Threshold.{descending, ascending}
use ubturbo.Prelude.{
  some, [], ℕ, none, ◌||◌, ◌/◌, ◌∷◌, ◌*◌, zero, Bool, ◌-◌, suc, ◌&&◌, ◌+◌, Option, List, leb, ltb,
  if◌then◌else◌, ◌==◌, u64, min, ◌^◌, ◌%◌,
}

-- The first frequency of the order at which `k` pages are counted, or the last one.
unfoldable pub kth_loop : (ℕ → ℕ) → ℕ → ℕ → List ℕ → ℕ → ℕ
kth_loop buckets k last [] count = last
kth_loop buckets k last (f ∷ fs) count =
    let rest = kth_loop buckets k last fs (u64 (count + buckets f)) in
    if leb k (u64 (count + buckets f)) then f else rest

unfoldable pub find_kth_freq_asc : (ℕ → ℕ) → ℕ → ℕ
unfolding kth_loop
find_kth_freq_asc buckets k = if k == 0 then 0 else kth_loop buckets k 255 (ascending 256 0) 0

unfoldable pub find_kth_freq_desc : (ℕ → ℕ) → ℕ → ℕ
unfolding kth_loop
find_kth_freq_desc buckets k = if k == 0 then 0 else kth_loop buckets k 0 (descending 256) 0

-- What the search reads: `GetZeroFreqMigrateEnableConfig`, the weight and the threshold, and both
-- nodes' buckets.
pub record SwapParams : Type 0 where
  pub zero_freq_migrate_enable : Bool
  pub freq_wt : ℕ
  pub slow_thred : ℕ
  pub l1_buckets : ℕ → ℕ
  pub l2_buckets : ℕ → ℕ

-- The test of the search at `mid`.
unfoldable pub is_worth : SwapParams → ℕ → Bool
unfolding find_kth_freq_asc find_kth_freq_desc
is_worth p mid =
    let freq_l1 = u64 (p.freq_wt * find_kth_freq_asc p.l1_buckets mid) in
    let freq_l2 = find_kth_freq_desc p.l2_buckets mid in
    (p.zero_freq_migrate_enable && (freq_l1 == 0) && ltb 0 freq_l2)
    || ltb (u64 (freq_l1 + p.slow_thred)) freq_l2

-- `while (low < high)`, on rounds; none when they run out. The bounds are page counts, and their sum
-- does not wrap.
unfoldable pub search_loop : (ℕ → Bool) → ℕ → ℕ → ℕ → Option ℕ
search_loop worth zero low high = none
search_loop worth (suc rounds) low high =
    let mid = low + (high - low + 1) / 2 in
    let up = search_loop worth rounds mid high in
    let down = search_loop worth rounds low (mid - 1) in
    if ltb low high then (if worth mid then up else down) else some low

-- The cap of the search, `migrateNum` within the pages of both nodes.
abbrev pub swap_cap : ℕ → ℕ → ℕ → ℕ
swap_cap migrate_num l1_count l2_count = min migrate_num (min l1_count l2_count)

unfoldable pub cal_low_migrate_num_by_buckets : SwapParams → ℕ → ℕ → ℕ → Option ℕ
unfolding is_worth search_loop
cal_low_migrate_num_by_buckets p migrate_num l1_count l2_count =
    let high = swap_cap migrate_num l1_count l2_count in
    if high == 0 then some 0 else search_loop (is_worth p) (high + 1) 0 high

-- What `CalcSwapNum` reads for a process of the local and the remote node and of the process.
pub record SwapCounts : Type 0 where
  pub local_len : ℕ
  pub local_offset : ℕ
  pub local_page_num : ℕ
  pub local_white_num : ℕ
  pub local_zero_num : ℕ
  pub remote_offset : ℕ
  pub remote_page_num : ℕ
  pub remote_white_num : ℕ
  pub remote_freq_num : ℕ
  pub max_migrate : ℕ
  pub free_pages : ℕ
  pub nr_page : ℕ

-- `-` on `uint64_t`.
abbrev minus : ℕ → ℕ → ℕ
minus a b = (a + 2 ^ 64 - b) % 2 ^ 64

-- `CalcSwapNum` for `PROCESS_TYPE`.
unfoldable pub calc_swap_num_for_process : SwapCounts → ℕ
calc_swap_num_for_process c =
    let last_zero =
      if ltb c.local_offset c.local_zero_num then c.local_zero_num - c.local_offset else 0 in
    let last_freq =
      if ltb c.remote_offset c.remote_freq_num then c.remote_freq_num - c.remote_offset else 0 in
    let local_free = minus c.local_page_num c.local_white_num in
    let remote_free = minus c.remote_page_num c.remote_white_num in
    let base = min (min (minus c.local_len c.local_offset) c.max_migrate) c.free_pages in
    min (min (min (min (min base last_zero) last_freq) local_free) remote_free) (c.nr_page / 100)
