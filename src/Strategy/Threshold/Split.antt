-- ===== src/Strategy/Threshold/Split.antt =====
-- What `find_threshold` promises: the pages beyond the threshold and the pages taken at it are
-- exactly the number asked for.
use mathlib.Core.Path.{subst}
use ubturbo.Prelude.{
  ℕ, ◌+◌, ◌-◌, ◌^◌, ◌%◌, ◌≤◌, ◌<◌, ◌≡◌, inl, inr, List, [], ◌∷◌, arith, leb, ◌==◌, Bool-cases, All,
  true, All-zip, sym, ◌∙◌, refl,
}
use ubturbo.Strategy.Actc.{SelectionMode, beyond}
use ubturbo.Strategy.Threshold.{threshold_loop, find_threshold, visited, initial_threshold}
use ubturbo.Strategy.Threshold.Order.{
  Ordered, sum_over, sum_beyond, beyond_self, sum_beyond-zero, sum_over-lt, length-visited,
  visited-Ordered, visited-lt,
}

-- A threshold and a quota at it that make up `nr` pages over the indices.
abbrev pub SplitsAt : SelectionMode → (ℕ → ℕ) → ℕ → List ℕ → ℕ × ℕ → Type 0
SplitsAt mode b nr is (t, k) = (sum_beyond mode b t is + k ≡ nr) × (0 < k) × (k ≤ b t)

module _ (b : ℕ → ℕ) (nr : ℕ) (start : ℕ × ℕ) (i : ℕ) (is : List ℕ) (count : ℕ) where
  loop_skip :
      b i ≡ 0 → threshold_loop b nr start (i ∷ is) count ≡ threshold_loop b nr start is count
  unfolding threshold_loop
  loop_skip e = ground arith

  loop_next :
      0 < b i
      → count + b i < nr
      → count + b i < 2 ^ 64
      → threshold_loop b nr start (i ∷ is) count ≡ threshold_loop b nr start is (count + b i)
  unfolding threshold_loop
  loop_next p h w = let e : (count + b i) % 2 ^ 64 ≡ count + b i = omega arith in ground (arith, e)

  -- No subtraction and no conversion to `uint32_t` loses anything.
  loop_stop :
      0 < b i
      → nr ≤ count + b i
      → count + b i < 2 ^ 64
      → count < nr
      → b i < 2 ^ 32
      → threshold_loop b nr start (i ∷ is) count ≡ (i, nr - count)
  unfolding threshold_loop
  loop_stop p h w todo u =
      let e : (count + b i) % 2 ^ 64 ≡ count + b i = omega arith in
      let d : (nr + 2 ^ 64 - count) % 2 ^ 64 % 2 ^ 32 ≡ nr - count = omega arith in
      ground (arith, e, d)

data Step (b : ℕ → ℕ) (nr i count : ℕ) : Type 0 where
  skip : b i ≡ 0 → Step b nr i count
  next : 0 < b i → count + b i < nr → Step b nr i count
  stop : 0 < b i → nr ≤ count + b i → Step b nr i count

Step-cases : (b : ℕ → ℕ) (nr i count : ℕ) → Step b nr i count
Step-cases b nr i count = elim (Bool-cases (b i == 0)) [
  | inl e ↦ skip (ground arith)
  | inr e ↦ elim (Bool-cases (leb nr (count + b i))) [
    | inl d ↦ stop (ground arith) (ground arith)
    | inr d ↦ next (ground arith) (ground arith)
  ]
]

module _ (b : ℕ → ℕ) (nr : ℕ) (start : ℕ × ℕ) (mode : SelectionMode) where
  -- The threshold is one of the indices visited, and the split is exact.
  threshold_loop-SplitsAt :
      (P : ℕ → Type 0) (is : List ℕ) (count : ℕ)
      → Ordered mode is
      → All P is
      → All (λ i. b i < 2 ^ 32) is
      → count + sum_over b is < 2 ^ 64
      → nr ≤ count + sum_over b is
      → count < nr
      → SplitsAt mode b (nr - count) is (threshold_loop b nr start is count)
        × P (threshold_loop b nr start is count).0
  threshold_loop-SplitsAt P [] count o h w small enough todo = absurd (omega arith)
  threshold_loop-SplitsAt P (i ∷ is) count o h w small enough todo =
      elim (Step-cases b nr i count) [
        | skip e ↦
            let ih =
              threshold_loop-SplitsAt P is count o.1 h.1 w.1 (omega arith) (omega arith) todo in
            subst Goal (sym (loop_skip b nr start i is count e))
              ((ground arith, ih.0.1, ih.0.2), ih.1)
        | next p q ↦
            let ih =
              threshold_loop-SplitsAt (λ j. P j × (beyond mode i j ≡ true)) is (count + b i) o.1
                (All-zip P _ is h.1 o.0) w.1 (omega arith) (omega arith) (omega arith) in
            subst Goal (sym (loop_next b nr start i is count p q (omega arith)))
              ((ground arith, ih.0.1, ih.0.2), ih.1.0)
        | stop p q ↦ subst Goal (sym (loop_stop b nr start i is count p q (omega arith) todo w.0)) (
          (
            ground (arith, beyond_self mode i, sum_beyond-zero mode b i is o.0),
            omega arith,
            omega arith,
          ),
          h.0,
        )
      ]
    where
      Goal : ℕ × ℕ → Type 0
      Goal r = SplitsAt mode b (nr - count) (i ∷ is) r × P r.0

-- With at least `nr_mig` pages in the buckets, `FindThreshold` returns a bucket index and a quota
-- such that the pages beyond the index and the quota add up to `nr_mig`, the quota being positive
-- and at most the bucket at the index.
pub find_threshold-SplitsAt :
    (mode : SelectionMode) (nr_mig : ℕ) (buckets : ℕ → ℕ)
    → All (λ i. buckets i < 2 ^ 32) (visited mode)
    → 0 < nr_mig
    → nr_mig ≤ sum_over buckets (visited mode)
    → SplitsAt mode buckets nr_mig (visited mode) (find_threshold mode nr_mig buckets)
      × ((find_threshold mode nr_mig buckets).0 < 256)
unfolding find_threshold
find_threshold-SplitsAt mode nr b w pos enough =
    let e : nr - 0 ≡ nr = omega arith in
    rw e at (
      threshold_loop-SplitsAt b nr (initial_threshold mode, 0) mode (λ t. t < 256) (visited mode) 0
        (visited-Ordered mode) (visited-lt mode) w small (omega arith) pos)
  where
    small : 0 + sum_over b (visited mode) < 2 ^ 64
    small = omega (arith, sum_over-lt b (visited mode) w, length-visited mode)

module _ (b : ℕ → ℕ) (nr : ℕ) (start : ℕ × ℕ) where
  threshold_loop-short :
      (is : List ℕ) (count : ℕ)
      → count + sum_over b is < 2 ^ 64
      → count + sum_over b is < nr
      → threshold_loop b nr start is count ≡ start
  unfolding threshold_loop
  threshold_loop-short [] count small short = refl
  threshold_loop-short (i ∷ is) count small short = elim (Step-cases b nr i count) [
    | skip e ↦
        loop_skip b nr start i is count e
        ∙ threshold_loop-short is count (omega arith) (omega arith)
    | next p q ↦
        loop_next b nr start i is count p q (omega arith)
        ∙ threshold_loop-short is (count + b i) (omega arith) (omega arith)
    | stop p q ↦ absurd (omega arith)
  ]

-- With fewer pages than asked for, the threshold is the initial one and nothing is taken at it.
pub find_threshold-short :
    (mode : SelectionMode) (nr_mig : ℕ) (buckets : ℕ → ℕ)
    → All (λ i. buckets i < 2 ^ 32) (visited mode)
    → sum_over buckets (visited mode) < nr_mig
    → find_threshold mode nr_mig buckets ≡ (initial_threshold mode, 0)
unfolding find_threshold
find_threshold-short mode nr b w short =
    threshold_loop-short b nr (initial_threshold mode, 0) (visited mode) 0 small (omega arith)
  where
    small : 0 + sum_over b (visited mode) < 2 ^ 64
    small = omega (arith, sum_over-lt b (visited mode) w, length-visited mode)
