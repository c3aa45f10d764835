-- ===== src/Plan/Swap/Count.antt =====
-- `ConsumeBucketPages` and `CountPairSwapPages`.
pub mod Fuel
pub mod Greatest
pub mod Rounds
use ubturbo.Prelude.{
  suc, zero, Option, not, false, ◌||◌, true, List, ◌-◌, none, ℕ, Bool, [], some, ◌∷◌, ◌&&◌, ◌+◌,
  ◌==◌, leb, ltb, if◌then◌else◌, u64, min, update,
}
use mathlib.Core.Option
use ubturbo.Strategy.Threshold.{descending, ascending}

-- What the code reads of a process: whether `actcData` is there, `actcLen`, `freqBuckets` and
-- `remoteHotNum` of each node, and two flags.
pub record ProcessView : Type 0 where
  pub enable_swap : Bool
  pub group_enabled : Bool
  pub has_data : ℕ → Bool
  pub actc_len : ℕ → ℕ
  pub freq_buckets : ℕ → ℕ → ℕ
  pub remote_hot_num : ℕ → ℕ

-- The loop over the buckets in the order of the indices; it stops when no page is left to consume.
unfoldable pub consume_loop : List ℕ → (ℕ → ℕ) → ℕ → ℕ → ℕ
consume_loop [] buckets pages = buckets
consume_loop (i ∷ is) buckets pages = elim (pages == 0) [
  | true ↦ buckets
  | false ↦
      let consumed = min (buckets i) pages in
      consume_loop is (update buckets i (buckets i - consumed)) (pages - consumed)
]

unfoldable pub consume_bucket_pages : (ℕ → ℕ) → ℕ → Bool → ℕ → ℕ
unfolding consume_loop
consume_bucket_pages buckets pages highest_first =
    consume_loop (if highest_first then descending 256 else ascending 256 0) buckets pages

-- `while (localBucket < remoteBucket && localBuckets[localBucket] == 0) localBucket++`
unfoldable pub skip_local : ℕ → (ℕ → ℕ) → ℕ → ℕ → ℕ
skip_local zero buckets l r = l
skip_local (suc d) buckets l r = elim (ltb l r && (buckets l == 0)) [
  | true ↦ skip_local d buckets (l + 1) r
  | false ↦ l
]

-- `while (localBucket < remoteBucket && remoteBuckets[remoteBucket] == 0) remoteBucket--`
unfoldable pub skip_remote : ℕ → (ℕ → ℕ) → ℕ → ℕ → ℕ
skip_remote zero buckets l r = r
skip_remote (suc d) buckets l r = elim (ltb l r && (buckets r == 0)) [
  | true ↦ skip_remote d buckets l (r - 1)
  | false ↦ r
]

pub record Pairing : Type 0 where
  pub local_buckets : ℕ → ℕ
  pub remote_buckets : ℕ → ℕ
  pub local_bucket : ℕ
  pub remote_bucket : ℕ
  pub swappable : ℕ

-- The two inner loops; the difference of the buckets is rounds enough.
abbrev pub skip_empty : Pairing → Pairing
skip_empty s =
    let l =
      skip_local (s.remote_bucket - s.local_bucket) s.local_buckets s.local_bucket
        s.remote_bucket in
    let r = skip_remote (s.remote_bucket - l) s.remote_buckets l s.remote_bucket in
    record s { local_bucket = l; remote_bucket = r }

-- The pages of the two buckets are paired.
abbrev pub pair_buckets : Pairing → Pairing
pair_buckets s =
    let paired = min (s.local_buckets s.local_bucket) (s.remote_buckets s.remote_bucket) in
    record s {
      local_buckets =
          update s.local_buckets s.local_bucket (s.local_buckets s.local_bucket - paired);
      remote_buckets =
          update s.remote_buckets s.remote_bucket (s.remote_buckets s.remote_bucket - paired);
      swappable = u64 (s.swappable + paired);
    }

-- The outer loop on fuel; none means that the fuel ran out.
unfoldable pub pairing_loop : ℕ → Pairing → Option Pairing
unfolding skip_local skip_remote
pairing_loop zero s = none
pairing_loop (suc f) s =
    let more = pairing_loop f (pair_buckets (skip_empty s)) in
    if ltb s.local_bucket s.remote_bucket
    then (if leb (skip_empty s).remote_bucket (skip_empty s).local_bucket
        then some (skip_empty s)
        else more)
    else some s

-- The buckets that are left once the pages of the net migration are taken.
unfoldable pub pairing_start : ProcessView → ℕ → ℕ → ℕ → ℕ → Pairing
unfolding consume_bucket_pages
pairing_start v local remote local_selected remote_selected = record {
  local_buckets = consume_bucket_pages (v.freq_buckets local) local_selected false;
  remote_buckets = consume_bucket_pages (v.freq_buckets remote) remote_selected true;
  local_bucket = 0;
  remote_bucket = 255;
  swappable = 0;
}

-- 257 rounds are enough: `Fuel`.
unfoldable pub count_pair_swap_pages : ProcessView → ℕ → ℕ → ℕ → ℕ → Option ℕ
unfolding pairing_loop pairing_start
count_pair_swap_pages v local remote local_selected remote_selected =
    if not (v.has_data local)
      || not (v.has_data remote)
      || (v.actc_len local == 0)
      || (v.actc_len remote == 0)
    then some 0
    else Option.map (λ s. s.swappable)
        (pairing_loop 257 (pairing_start v local remote local_selected remote_selected))
