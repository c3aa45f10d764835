-- ===== src/Plan/Swap/Count/Greatest.antt =====
-- What `CountPairSwapPages` counts: the most pages such that so many of the coldest local pages are all
-- colder than so many of the hottest remote ones.
use mathlib.Core.Path.{subst}
use mathlib.Core.Option
use native.Mathlib.Decide.{dec_lt}
use ubturbo.Prelude.{
  ◌+◌, ◌≤◌, some, suc, ◌≡◌, ℕ, zero, ◌<◌, arith, ◌-◌, Option, leb, leb→le, if_ind, Bool, ltb,
  if◌then◌else◌, update, ◌^◌, min, true, ap, sym, ◌∙◌, refl,
}
use ubturbo.Plan.Swap.Count.{
  Pairing, skip_empty, pair_buckets, pairing_loop, count_pair_swap_pages, pairing_start,
  ProcessView,
}
use ubturbo.Plan.Swap.Count.Fuel.{
  measure-le, pairing_loop_ends, count_pair_swap_pages-eq_loop, skip_local-Stops, skip_remote-Stops,
}
use ubturbo.Plan.Swap.Count.Rounds.{
  Passed, Counts, total, skip_empty-Passed, pair_buckets-Passed, skip_empty-Counts,
  pair_buckets-Counts, pair_buckets-swappable,
}

-- The pages in those of the first `n` buckets that a test holds of.
unfoldable pub pages : (ℕ → Bool) → (ℕ → ℕ) → ℕ → ℕ
pages test b zero = 0
pages test b (suc n) = (if test n then b n else 0) + pages test b n

pages-update :
    (test : ℕ → Bool) (b : ℕ → ℕ) (n i k : ℕ)
    → k ≤ b i
    → pages test (update b i (b i - k)) n + (if ltb i n then (if test i then k else 0) else 0)
      ≡ pages test b n
unfolding pages
pages-update test b zero i k h = ground arith
pages-update test b (suc n) i k h = ground (arith, pages-update test b n i k h)

pages-empty :
    (test : ℕ → Bool) (b : ℕ → ℕ) (n : ℕ)
    → ((i : ℕ) → i < n → test i ≡ true → b i ≡ 0)
    → pages test b n ≡ 0
unfolding pages
pages-empty test b zero h = refl
pages-empty test b (suc n) h =
    let rest = pages-empty test b n (λ i lt. h i (omega arith)) in ground (arith, rest, h n)

-- The pages in the buckets below `c`, and those in `c` and above.
abbrev pub colder : (ℕ → ℕ) → ℕ → ℕ
colder b c = pages (λ i. ltb i c) b 256

abbrev pub hotter : (ℕ → ℕ) → ℕ → ℕ
hotter b c = pages (λ i. leb c i) b 256

module _ (lb rb : ℕ → ℕ) where
  -- `n` local pages below some bucket and `n` remote pages in it or above; and no more for any bucket.
  abbrev pub IsGreatest : ℕ → Type 0
  IsGreatest n =
      ((c : ℕ) × (n ≤ colder lb c) × (n ≤ hotter rb c))
      × ((c : ℕ) → min (colder lb c) (hotter rb c) ≤ n)

  -- How far the pairs have come, from the buckets `lb` and `rb`.
  record Paired (s : Pairing) : Type 0 where
    passed : Passed s
    counts : Counts (total lb 256) (total rb 256) s
    local_le : (c : ℕ) → colder lb c ≤ s.swappable + colder s.local_buckets c
    remote_le : (c : ℕ) → hotter rb c ≤ s.swappable + hotter s.remote_buckets c
    local_ge : (c : ℕ) → s.local_bucket < c → s.swappable + colder s.local_buckets c ≤ colder lb c
    remote_ge :
        (c : ℕ) → c ≤ s.remote_bucket → s.swappable + hotter s.remote_buckets c ≤ hotter rb c
    attained : (c : ℕ) × (s.swappable ≤ colder lb c) × (s.swappable ≤ hotter rb c)

  skip_empty-Paired :
      (s : Pairing) → s.local_bucket < s.remote_bucket → Paired s → Paired (skip_empty s)
  skip_empty-Paired s h v =
      let low =
        skip_local-Stops (s.remote_bucket - s.local_bucket) s.local_buckets s.local_bucket
          s.remote_bucket (omega arith) (omega arith) in
      let l = (skip_empty s).local_bucket in
      let high =
        skip_remote-Stops (s.remote_bucket - l) s.remote_buckets l s.remote_bucket
          (omega (arith, low)) (omega arith) in
      record {
        passed = skip_empty-Passed s v.passed;
        counts = skip_empty-Counts (total lb 256) (total rb 256) s h v.counts;
        local_le = v.local_le;
        remote_le = v.remote_le;
        local_ge = λ c lt. v.local_ge c (omega (arith, low));
        remote_ge = λ c le. v.remote_ge c (omega (arith, high));
        attained = v.attained;
      }

  pair_buckets-Paired :
      (s : Pairing) → s.local_bucket < s.remote_bucket → Paired s → Paired (pair_buckets s)
  pair_buckets-Paired s h v =
      let l = s.local_bucket in
      let r = s.remote_bucket in
      let paired = min (s.local_buckets l) (s.remote_buckets r) in
      let sum = pair_buckets-swappable (total lb 256) (total rb 256) s h v.counts in
      let left =
        λ (c : ℕ). pages-update (λ i. ltb i c) s.local_buckets 256 l paired (omega arith) in
      let right =
        λ (c : ℕ). pages-update (λ i. leb c i) s.remote_buckets 256 r paired (omega arith) in
      record {
        passed = pair_buckets-Passed s v.passed;
        counts = pair_buckets-Counts (total lb 256) (total rb 256) s h v.counts;
        local_le = λ c. ground (arith, sum, left c, v.local_le c);
        remote_le = λ c. ground (arith, sum, right c, v.remote_le c);
        local_ge = λ c lt. ground (arith, sum, left c, v.local_ge c lt, v.counts.in_range);
        remote_ge = λ c le. ground (arith, sum, right c, v.remote_ge c le, v.counts.in_range);
        attained = (
          l + 1,
          ground (arith, sum, left (l + 1), v.local_ge (l + 1) (omega arith), v.counts.in_range),
          ground (arith, sum, right (l + 1), v.remote_ge (l + 1) (omega arith), v.counts.in_range),
        );
      }

  abbrev Ended : Pairing → Type 0
  Ended t = IsGreatest t.swappable

  Paired-Ended : (s : Pairing) → s.remote_bucket ≤ s.local_bucket → Paired s → Ended s
  Paired-Ended s h v = (
    v.attained,
    λ c. elim (dec_lt s.local_bucket c) [
      | yes above ↦
          let none_left =
            pages-empty (λ i. leb c i) s.remote_buckets 256
              (λ j lt holds. v.passed.high j (ground (arith, holds)) lt) in
          omega (arith, v.remote_le c, none_left)
      | no below ↦
          let none_left =
            pages-empty (λ i. ltb i c) s.local_buckets 256
              (λ i lt holds. v.passed.low i (ground (arith, holds))) in
          omega (arith, v.local_le c, none_left)
    ],
  )

  abbrev Good : Option Pairing → Type 0
  Good r = (t : Pairing) → r ≡ some t → Ended t

  at_end : (s : Pairing) → s.remote_bucket ≤ s.local_bucket → Paired s → Good (some s)
  at_end s h v t e = let e' : s ≡ t = cc in subst Ended e' (Paired-Ended s h v)

  pairing_loop-Ended : (f : ℕ) (s : Pairing) → Paired s → Good (pairing_loop f s)
  unfolding pairing_loop
  pairing_loop-Ended zero s v = λ t e. absurd (cc)
  pairing_loop-Ended (suc f) s v =
      if_ind Good (ltb s.local_bucket s.remote_bucket)
        (λ h.
          let v' = skip_empty-Paired s (ground arith) v in
          if_ind Good (leb (skip_empty s).remote_bucket (skip_empty s).local_bucket)
            (λ d. at_end (skip_empty s) (leb→le _ _ d) v')
            (λ d.
              pairing_loop-Ended f (pair_buckets (skip_empty s))
                (pair_buckets-Paired (skip_empty s) (ground arith) v')))
        (λ d. at_end s (ground arith) v)

-- For two nodes with data, and of the buckets that the net migration leaves, with fewer than 2^64 local
-- pages in all, `CountPairSwapPages` returns the greatest number such that as many local pages are
-- below some bucket and as many remote pages in it or above.
pub count_pair_swap_pages-IsGreatest :
    (v : ProcessView) (local remote local_selected remote_selected n : ℕ)
    → v.has_data local ≡ true
    → v.has_data remote ≡ true
    → 0 < v.actc_len local
    → 0 < v.actc_len remote
    → let s = pairing_start v local remote local_selected remote_selected in
      total s.local_buckets 256 < 2 ^ 64
      → count_pair_swap_pages v local remote local_selected remote_selected ≡ some n
      → IsGreatest s.local_buckets s.remote_buckets n
unfolding pairing_start
count_pair_swap_pages-IsGreatest v local remote ls rs n hl hr ll lr word e =
    let start = pairing_start v local remote ls rs in
    let (t, stops) = pairing_loop_ends 257 start (omega (arith, measure-le start)) in
    let ended =
      pairing_loop-Ended start.local_buckets start.remote_buckets 257 start
        (record {
          passed = record {
            low = λ i h. absurd (omega arith);
            high = λ j h k. absurd (omega arith);
          };
          counts = record {
            local_side = omega arith;
            remote_side = omega arith;
            word = omega (arith, word);
            in_range = omega arith;
          };
          local_le = λ c. omega arith;
          remote_le = λ c. omega arith;
          local_ge = λ c lt. omega arith;
          remote_ge = λ c le. omega arith;
          attained = (0, omega arith, omega arith);
        })
        t stops in
    let same : some t.swappable ≡ some n =
      sym (ap (Option.map (λ s. s.swappable)) stops)
      ∙ sym (count_pair_swap_pages-eq_loop v local remote ls rs hl hr ll lr)
      ∙ e in
    let count : t.swappable ≡ n = cc in
    subst (IsGreatest start.local_buckets start.remote_buckets) count ended
