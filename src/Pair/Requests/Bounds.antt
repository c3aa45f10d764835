-- ===== src/Pair/Requests/Bounds.antt =====
-- What the requests of pairs add up to, and what bounds each.
use ubturbo.Pair.Distribute.Shares.{distribute_pair_request_pages-Within, elements-lt}
use ubturbo.Pair.Distribute.{u64_sum, distribute_pair_request_pages}
use ubturbo.Pair.Requests.{
  build_effective_remote_pages, add_each, preserve_pair_accounts, eligible_accounts, baselines,
  demands,
}
use ubturbo.Pair.Distribute.Floors.{sum, All2, u64_sum-exact}
use ubturbo.Prelude.{
  ◌^◌, ℕ, ◌+◌, true, ◌-◌, ◌≤◌, ◌≡◌, false, Bool, ◌∷◌, [], List, ◌<◌, arith, ltb, if◌then◌else◌, leb,
  if_ind, All, length, u64, min, max,
}

parts-sum :
    (actual requested : List ℕ)
    → length actual ≡ length requested
    → sum (baselines actual requested) + sum (demands actual requested) ≡ sum requested
parts-sum [] [] h = omega arith
parts-sum [] (r ∷ requested) h = absurd (omega arith)
parts-sum (a ∷ actual) [] h = absurd (omega arith)
parts-sum (a ∷ actual) (r ∷ requested) h = omega (arith, parts-sum actual requested (omega arith))

-- Baselines with allocations that stay within the demands.
added-Bounded :
    (actual requested ys : List ℕ)
    → length actual ≡ length requested
    → All (λ r. r < 2 ^ 64) requested
    → All2 (λ d y. y ≤ d) (demands actual requested) ys
    → (sum (add_each (baselines actual requested) ys) ≡ sum (baselines actual requested) + sum ys)
      × All2 (λ r e. e ≤ r) requested (add_each (baselines actual requested) ys)
      × All2 (λ b e. b ≤ e) (baselines actual requested) (add_each (baselines actual requested) ys)
unfolding add_each
added-Bounded [] [] [] h small fits = (omega arith, tt, tt)
added-Bounded [] [] (y ∷ ys) h small fits = absurd fits
added-Bounded [] (r ∷ requested) ys h small fits = absurd (omega arith)
added-Bounded (a ∷ actual) [] ys h small fits = absurd (omega arith)
added-Bounded (a ∷ actual) (r ∷ requested) [] h small fits = absurd fits
added-Bounded (a ∷ actual) (r ∷ requested) (y ∷ ys) h small fits =
    let (total, high, low) = added-Bounded actual requested ys (omega arith) small.1 fits.1 in
    let word : u64 (min a r + y) ≡ min a r + y = omega (arith, small.0, fits.0) in
    rw word (omega (arith, total), (omega (arith, fits.0), high), (omega arith, low))

-- The effective pages of each remote node are no more than requested, and no less than those that it
-- holds of the requested ones. Together they are all that is requested, as far as the managed pages
-- reach, or what is held of the requested pages where that is more.
pub build_effective_remote_pages-Bounded :
    (actual requested : List ℕ) (managed : ℕ)
    → length actual ≡ length requested
    → sum requested < 2 ^ 64
    → (sum (build_effective_remote_pages actual requested managed)
        ≡ min (sum requested) (max (sum (baselines actual requested)) managed))
      × All2 (λ r e. e ≤ r) requested (build_effective_remote_pages actual requested managed)
      × All2
          (λ b e. b ≤ e)
          (baselines actual requested)
          (build_effective_remote_pages actual requested managed)
unfolding build_effective_remote_pages
build_effective_remote_pages-Bounded actual requested managed same small =
    let base = sum (baselines actual requested) in
    let need = demands actual requested in
    let parts = parts-sum actual requested same in
    let base_sum : u64_sum 0 (baselines actual requested) ≡ base =
      rw (u64_sum-exact 0 (baselines actual requested) (omega arith)) (omega arith) in
    let need_sum : u64_sum 0 need ≡ sum need =
      rw (u64_sum-exact 0 need (omega arith)) (omega arith) in
    let given = min (if ltb base managed then managed - base else 0) (sum need) in
    let (total, fits) = distribute_pair_request_pages-Within given need (omega arith) in
    let (all, high, low) =
      added-Bounded actual requested (distribute_pair_request_pages given need) same
        (elements-lt requested (2 ^ 64) small) fits in
    rw (base_sum, need_sum) (ground (arith, all, total, parts), high, low)

eligible-sum :
    (eligible : List Bool) (accounts : List ℕ)
    → length eligible ≡ length accounts
    → (sum (eligible_accounts eligible accounts) ≤ sum accounts)
      × All2 (λ a x. x ≤ a) accounts (eligible_accounts eligible accounts)
eligible-sum [] [] h = (omega arith, tt)
eligible-sum [] (a ∷ accounts) h = absurd (omega arith)
eligible-sum (e ∷ eligible) [] h = absurd (omega arith)
eligible-sum (true ∷ eligible) (a ∷ accounts) h =
    let (total, fits) = eligible-sum eligible accounts (omega arith) in
    (omega arith, (omega arith, fits))
eligible-sum (false ∷ eligible) (a ∷ accounts) h =
    let (total, fits) = eligible-sum eligible accounts (omega arith) in
    (omega arith, (omega arith, fits))

All2-refl : (xs : List ℕ) → All2 (λ a x. x ≤ a) xs xs
All2-refl [] = tt
All2-refl (x ∷ xs) = (omega arith, All2-refl xs)

-- The requests kept for one remote node are, together, its effective target or the accounts of the
-- eligible nodes, whichever is less, and none is more than its account, or than 0 where it is not
-- eligible.
pub preserve_pair_accounts-Bounded :
    (eligible : List Bool) (accounts : List ℕ) (target : ℕ)
    → length eligible ≡ length accounts
    → sum accounts < 2 ^ 64
    → (sum (preserve_pair_accounts eligible accounts target)
        ≡ min target (sum (eligible_accounts eligible accounts)))
      × All2
          (λ a x. x ≤ a)
          (eligible_accounts eligible accounts)
          (preserve_pair_accounts eligible accounts target)
unfolding preserve_pair_accounts
preserve_pair_accounts-Bounded eligible accounts target same small =
    let kept = eligible_accounts eligible accounts in
    let (fewer, _) = eligible-sum eligible accounts same in
    let exact : u64_sum 0 kept ≡ sum kept = rw (u64_sum-exact 0 kept (omega arith)) (omega arith) in
    rw exact (
      if_ind (λ l. (sum l ≡ min target (sum kept)) × All2 (λ a x. x ≤ a) kept l)
        (leb (sum kept) target) (λ fits. (ground arith, All2-refl kept))
        (λ more. distribute_pair_request_pages-Within target kept (omega arith)))
