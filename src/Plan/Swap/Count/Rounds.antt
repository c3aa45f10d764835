-- ===== src/Plan/Swap/Count/Rounds.antt =====
-- A round of the outer loop of `CountPairSwapPages`: which buckets are empty, and what is counted.
use native.Mathlib.Decide.{ℕ_discrete, dec_lt}
use ubturbo.Prelude.{
  ◌+◌, ◌≤◌, suc, ◌≡◌, ℕ, zero, ◌<◌, arith, ◌-◌, ltb, if◌then◌else◌, update, ◌^◌, min,
}
use ubturbo.Plan.Swap.Count.{skip_local, skip_remote, Pairing, skip_empty, pair_buckets}
use ubturbo.Plan.Swap.Count.Fuel.{skip_local-Stops, skip_remote-Stops}

-- The buckets that were passed hold no page.
pub record Passed (s : Pairing) : Type 0 where
  pub low : (i : ℕ) → i < s.local_bucket → s.local_buckets i ≡ 0
  pub high : (j : ℕ) → s.remote_bucket < j → j < 256 → s.remote_buckets j ≡ 0

skip_local_empty : (d : ℕ) (b : ℕ → ℕ) (l r : ℕ) (i : ℕ) → l ≤ i → i < skip_local d b l r → b i ≡ 0
unfolding skip_local
skip_local_empty zero b l r i h k = absurd (omega arith)
skip_local_empty (suc d) b l r i h k = elim (ℕ_discrete l i) [
  | yes e ↦ ground (arith, e)
  | no n ↦ ground (arith, n, skip_local_empty d b (l + 1) r i)
]

skip_remote_empty :
    (d : ℕ) (b : ℕ → ℕ) (l r : ℕ) (j : ℕ) → j ≤ r → skip_remote d b l r < j → b j ≡ 0
unfolding skip_remote
skip_remote_empty zero b l r j h k = absurd (omega arith)
skip_remote_empty (suc d) b l r j h k = elim (ℕ_discrete r j) [
  | yes e ↦ ground (arith, e)
  | no n ↦ ground (arith, n, skip_remote_empty d b l (r - 1) j)
]

pub skip_empty-Passed : (s : Pairing) → Passed s → Passed (skip_empty s)
skip_empty-Passed s v = record {
  low = λ i h. elim (dec_lt i s.local_bucket) [
    | yes p ↦ v.low i p
    | no p ↦
        skip_local_empty (s.remote_bucket - s.local_bucket) s.local_buckets s.local_bucket
          s.remote_bucket i (omega arith) h
  ];
  high = λ j h k. elim (dec_lt s.remote_bucket j) [
    | yes p ↦ v.high j p k
    | no p ↦
        skip_remote_empty _ s.remote_buckets (skip_empty s).local_bucket s.remote_bucket j
          (omega arith) h
  ];
}

pub pair_buckets-Passed : (s : Pairing) → Passed s → Passed (pair_buckets s)
pair_buckets-Passed s v = record {
  low = λ i h. ground (arith, v.low i h, h);
  high = λ j h k. ground (arith, v.high j h k, h);
}

-- The pages of one side, over all buckets.
unfoldable pub total : (ℕ → ℕ) → ℕ → ℕ
total b zero = 0
total b (suc n) = b n + total b n

total-update :
    (b : ℕ → ℕ) (n i k : ℕ)
    → k ≤ b i
    → total (update b i (b i - k)) n + (if ltb i n then k else 0) ≡ total b n
unfolding total
total-update b zero i k h = ground arith
total-update b (suc n) i k h = ground (arith, total-update b n i k h)

total-update_lt :
    (b : ℕ → ℕ) (n i k : ℕ) → k ≤ b i → i < n → total (update b i (b i - k)) n + k ≡ total b n
total-update_lt b n i k h lt = ground (arith, total-update b n i k h)

-- Each page counted has left both sides, `n` and `m` pages at first, and the count is a word.
pub record Counts (n m : ℕ) (s : Pairing) : Type 0 where
  pub local_side : s.swappable + total s.local_buckets 256 ≡ n
  pub remote_side : s.swappable + total s.remote_buckets 256 ≡ m
  pub word : n < 2 ^ 64
  pub in_range : s.remote_bucket < 256

module _ (n m : ℕ) where
  pub skip_empty-Counts :
      (s : Pairing) → s.local_bucket < s.remote_bucket → Counts n m s → Counts n m (skip_empty s)
  skip_empty-Counts s h v =
      let low =
        skip_local-Stops (s.remote_bucket - s.local_bucket) s.local_buckets s.local_bucket
          s.remote_bucket (omega arith) (omega arith) in
      let l = (skip_empty s).local_bucket in
      let high =
        skip_remote-Stops (s.remote_bucket - l) s.remote_buckets l s.remote_bucket
          (omega (arith, low)) (omega arith) in
      record {
        local_side = v.local_side;
        remote_side = v.remote_side;
        word = v.word;
        in_range = omega (arith, high, v.in_range);
      }

  pub pair_buckets-Counts :
      (s : Pairing) → s.local_bucket < s.remote_bucket → Counts n m s → Counts n m (pair_buckets s)
  pair_buckets-Counts s h v =
      let l = s.local_bucket in
      let r = s.remote_bucket in
      let paired = min (s.local_buckets l) (s.remote_buckets r) in
      let left =
        total-update_lt s.local_buckets 256 l paired (omega arith) (omega (arith, v.in_range)) in
      let right =
        total-update_lt s.remote_buckets 256 r paired (omega arith) (omega (arith, v.in_range)) in
      record {
        local_side = omega (arith, left, v.local_side, v.word);
        remote_side = omega (arith, right, left, v.local_side, v.remote_side, v.word);
        word = v.word;
        in_range = v.in_range;
      }

  -- The sum does not wrap around.
  pub pair_buckets-swappable :
      (s : Pairing)
      → s.local_bucket < s.remote_bucket
      → Counts n m s
      → (pair_buckets s).swappable
        ≡ s.swappable + min (s.local_buckets s.local_bucket) (s.remote_buckets s.remote_bucket)
  pair_buckets-swappable s h v =
      let l = s.local_bucket in
      let paired = min (s.local_buckets l) (s.remote_buckets s.remote_bucket) in
      let left =
        total-update_lt s.local_buckets 256 l paired (omega arith) (omega (arith, v.in_range)) in
      omega (arith, left, v.local_side, v.word)
