-- ===== src/Strategy/Threshold.antt =====
-- `FindThreshold` of plugins/smap/src/user/strategy/separate_strategy.c: the frequency at which a
-- selection of `nr_mig` pages ends, and how many pages of that frequency it takes.
pub mod Order
pub mod Split
pub mod Histogram
use ubturbo.Prelude.{ℕ, zero, suc, ◌+◌, ◌-◌, ◌^◌, ◌%◌, true, false, List, [], ◌∷◌, leb, ◌==◌}
use ubturbo.Strategy.Actc.{SelectionMode, select_top_k, select_bottom_k, freq_buckets_size}

-- The indices that `for (i = n - 1; i >= 0; --i)` visits.
abbrev pub descending : ℕ → List ℕ
descending zero = []
descending (suc n) = n ∷ descending n

-- The indices that `for (i = from; i < from + n; ++i)` visits.
abbrev pub ascending : ℕ → ℕ → List ℕ
ascending zero from = []
ascending (suc n) from = from ∷ ascending n (from + 1)

abbrev pub visited : SelectionMode → List ℕ
visited select_top_k = descending freq_buckets_size
visited select_bottom_k = ascending freq_buckets_size 0

-- The loop body, the same in both modes. `size_t` and `uint32_t` wrap.
unfoldable pub threshold_loop : (ℕ → ℕ) → ℕ → ℕ × ℕ → List ℕ → ℕ → ℕ × ℕ
threshold_loop buckets nr_mig start [] count = start
threshold_loop buckets nr_mig start (i ∷ is) count = elim (buckets i == 0) [
  | true ↦ threshold_loop buckets nr_mig start is count
  | false ↦ elim (leb nr_mig ((count + buckets i) % 2 ^ 64)) [
    | true ↦ (i, (nr_mig + 2 ^ 64 - count) % 2 ^ 64 % 2 ^ 32)
    | false ↦ threshold_loop buckets nr_mig start is ((count + buckets i) % 2 ^ 64)
  ]
]

abbrev pub initial_threshold : SelectionMode → ℕ
initial_threshold select_top_k = 0
initial_threshold select_bottom_k = freq_buckets_size

-- The threshold and the number of pages to take at it.
unfoldable pub find_threshold : SelectionMode → ℕ → (ℕ → ℕ) → ℕ × ℕ
unfolding threshold_loop
find_threshold mode nr_mig buckets =
    threshold_loop buckets nr_mig (initial_threshold mode, 0) (visited mode) 0
