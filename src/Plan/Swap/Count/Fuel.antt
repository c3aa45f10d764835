-- ===== src/Plan/Swap/Count/Fuel.antt =====
-- The outer loop of `CountPairSwapPages` ends within 257 rounds.
use mathlib.Core.Option
use ubturbo.Prelude.{
  suc, zero, ◌<◌, ◌||◌, ◌-◌, ◌≤◌, ◌≢◌, arith, ℕ, ◌⊎◌, inr, ◌≡◌, ◌+◌, ◌==◌, if◌then◌else◌, some, ltb,
  leb, update_self, min, refl, Option, not, ap, if_ind, true,
}
use ubturbo.Plan.Swap.Count.{
  skip_local, skip_remote, Pairing, skip_empty, pair_buckets, pairing_loop, count_pair_swap_pages,
  pairing_start, ProcessView,
}

-- What the inner loops leave: a bucket between the bounds, none skipped that holds a page, and at
-- the end a page or the other bound.
pub skip_local-Stops :
    (d : ℕ) (b : ℕ → ℕ) (l r : ℕ)
    → l ≤ r
    → r - l ≤ d
    → let k = skip_local d b l r in
      (l ≤ k) × (k ≤ r) × ((b k ≢ 0) ⊎ (k ≡ r)) × ((b l ≡ 0) → (k ≡ l) → l ≡ r)
unfolding skip_local
skip_local-Stops zero b l r h e = (omega arith, omega arith, inr (omega arith), λ _ _. omega arith)
skip_local-Stops (suc d) b l r h e = ground (arith, skip_local-Stops d b (l + 1) r)

pub skip_remote-Stops :
    (d : ℕ) (b : ℕ → ℕ) (l r : ℕ)
    → l ≤ r
    → r - l ≤ d
    → let k = skip_remote d b l r in
      (l ≤ k) × (k ≤ r) × ((b k ≢ 0) ⊎ (k ≡ l)) × ((b r ≡ 0) → (k ≡ r) → l ≡ r)
unfolding skip_remote
skip_remote-Stops zero b l r h e = (omega arith, omega arith, inr (omega arith), λ _ _. omega arith)
skip_remote-Stops (suc d) b l r h e = ground (arith, skip_remote-Stops d b l (r - 1))

-- The distance of the buckets, and one round more while both hold pages.
abbrev pub measure : Pairing → ℕ
measure s =
    (s.remote_bucket - s.local_bucket)
    + (if (s.local_buckets s.local_bucket == 0) || (s.remote_buckets s.remote_bucket == 0)
        then 0
        else 1)

pub measure-le : (s : Pairing) → measure s ≤ (s.remote_bucket - s.local_bucket) + 1
measure-le s = ground arith

-- Pairing empties one of the two buckets.
measure-pair_buckets : (s : Pairing) → measure (pair_buckets s) ≡ s.remote_bucket - s.local_bucket
measure-pair_buckets s =
    let l = s.local_bucket in
    let r = s.remote_bucket in
    let paired = min (s.local_buckets l) (s.remote_buckets r) in
    ground (
      arith,
      update_self s.local_buckets l (s.local_buckets l - paired),
      update_self s.remote_buckets r (s.remote_buckets r - paired),
    )

-- Skipping comes closer, or both buckets held pages.
measure-skip_empty :
    (s : Pairing)
    → s.local_bucket < s.remote_bucket
    → (skip_empty s).local_bucket < (skip_empty s).remote_bucket
    → (skip_empty s).remote_bucket - (skip_empty s).local_bucket < measure s
measure-skip_empty s h k =
    let low =
      skip_local-Stops (s.remote_bucket - s.local_bucket) s.local_buckets s.local_bucket
        s.remote_bucket (omega arith) (omega arith) in
    let l = (skip_empty s).local_bucket in
    let high =
      skip_remote-Stops (s.remote_bucket - l) s.remote_buckets l s.remote_bucket
        (omega (arith, low)) (omega arith) in
    ground (arith, low, high)

-- With the measure below the fuel the loop ends.
pub pairing_loop_ends :
    (f : ℕ) (s : Pairing) → measure s < f → (t : Pairing) × (pairing_loop f s ≡ some t)
unfolding pairing_loop
pairing_loop_ends zero s h = absurd (omega arith)
pairing_loop_ends (suc f) s h =
    if_ind Ends (ltb s.local_bucket s.remote_bucket)
      (λ e.
        if_ind Ends (leb (skip_empty s).remote_bucket (skip_empty s).local_bucket)
          (λ d. (skip_empty s, refl))
          (λ d. pairing_loop_ends f (pair_buckets (skip_empty s)) (
            omega (
              arith,
              measure-pair_buckets (skip_empty s),
              measure-skip_empty s (ground arith) (ground arith),
            ))))
      (λ e. (s, refl))
  where
    Ends : Option Pairing → Type 0
    Ends r = (t : Pairing) × (r ≡ some t)

-- `CountPairSwapPages` always returns: 257 rounds of the outer loop are enough.
pub count_pair_swap_pages_total :
    (v : ProcessView) (local remote local_selected remote_selected : ℕ)
    → (n : ℕ) × (count_pair_swap_pages v local remote local_selected remote_selected ≡ some n)
unfolding count_pair_swap_pages pairing_start
count_pair_swap_pages_total v local remote local_selected remote_selected =
    let start = pairing_start v local remote local_selected remote_selected in
    let (t, e) = pairing_loop_ends 257 start (omega (arith, measure-le start)) in
    if_ind Ends
      (not (v.has_data local)
        || not (v.has_data remote)
        || (v.actc_len local == 0)
        || (v.actc_len remote == 0))
      (λ _. (0, refl)) (λ _. (t.swappable, ap (Option.map (λ s. s.swappable)) e))
  where
    Ends : Option ℕ → Type 0
    Ends r = (n : ℕ) × (r ≡ some n)

-- With data on both nodes the count is that of the loop.
pub count_pair_swap_pages-eq_loop :
    (v : ProcessView) (local remote ls rs : ℕ)
    → v.has_data local ≡ true
    → v.has_data remote ≡ true
    → 0 < v.actc_len local
    → 0 < v.actc_len remote
    → count_pair_swap_pages v local remote ls rs
      ≡ Option.map (λ s. s.swappable) (pairing_loop 257 (pairing_start v local remote ls rs))
unfolding count_pair_swap_pages
count_pair_swap_pages-eq_loop v local remote ls rs hl hr ll lr =
    if_ind
      (λ r.
        r ≡ Option.map (λ s. s.swappable) (pairing_loop 257 (pairing_start v local remote ls rs)))
      (not (v.has_data local)
        || not (v.has_data remote)
        || (v.actc_len local == 0)
        || (v.actc_len remote == 0))
      (λ c. absurd (ground (arith, c))) (λ _. refl)
