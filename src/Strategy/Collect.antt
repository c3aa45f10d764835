-- ===== src/Strategy/Collect.antt =====
-- The collection passes of plugins/smap/src/user/strategy/separate_strategy.c over the scanned
-- pages of one node: `CollectPages4K` for processes and `CollectPagesVm` for virtual machines.
pub mod Picks
pub mod Exact
pub mod Buckets
pub mod Marks
pub mod Vm
pub mod Bound
use ubturbo.Prelude.{
  ℕ, zero, suc, ◌+◌, ◌-◌, ◌%◌, ◌^◌, min, Bool, true, not, ◌&&◌, ◌||◌, List, [], ◌∷◌, ltb, ◌==◌,
  if◌then◌else◌, update,
}
use ubturbo.Strategy.Actc.{ActcData, SelectionMode, beyond}

-- What a pass leaves: the positions written to `currMlist->addr`, the pages with their new
-- `isSelected`, and `selectedBuckets`. The collected count is the number of positions.
pub record Collected : Type 0 where
  pub addr : List ℕ
  pub pages : List ActcData
  pub selected : ℕ → ℕ

-- The loop stops: no later page changes.
abbrev pub stop_at : List ActcData → (ℕ → ℕ) → Collected
stop_at ps selected = record { addr = []; pages = ps; selected = selected }

-- `continue`: the page stays as it was.
abbrev pub skip_page : ActcData → Collected → Collected
skip_page p c = record c { pages = p ∷ c.pages }

-- The page at position `i` goes to the list and is marked.
abbrev pub take_page : ActcData → ℕ → Collected → Collected
take_page p i c = record c { addr = i ∷ c.addr; pages = record p { is_selected = true } ∷ c.pages }

-- `selectedBuckets[MIN(freq, FREQ_BUCKETS_SIZE - 1)]++`, a `uint32_t`.
abbrev pub bump : (ℕ → ℕ) → ℕ → ℕ → ℕ
bump selected freq = update selected (min freq 255) ((selected (min freq 255) + 1) % 2 ^ 32)

-- `freq > thresholdFreq || (freq == thresholdFreq && tmp > 0)`, turned round for the other mode.
abbrev pub should_take_4k : SelectionMode → ℕ → ℕ → ℕ → Bool
should_take_4k mode freq threshold tmp =
    beyond mode freq threshold || (freq == threshold && ltb 0 tmp)

module _ (mode : SelectionMode) (from_local : Bool) (nr_mig threshold : ℕ) where
  -- `tmp--` runs only at `tmp > 0`; the arguments are the pages left, `i`, `collectedCount`, `tmp`
  -- and `selectedBuckets`.
  unfoldable pub collect_4k_loop : List ActcData → ℕ → ℕ → ℕ → (ℕ → ℕ) → Collected
  collect_4k_loop [] i count tmp selected = stop_at [] selected
  collect_4k_loop (p ∷ ps) i count tmp selected =
      let skip = skip_page p (collect_4k_loop ps (i + 1) count tmp selected) in
      let tmp' = if p.freq == threshold then tmp - 1 else tmp in
      let taken =
        take_page p i (collect_4k_loop ps (i + 1) (count + 1) tmp' (bump selected p.freq)) in
      if ltb count nr_mig
      then (if p.is_selected
          then skip
          else if should_take_4k mode p.freq threshold tmp
          then (if from_local && p.is_white_list_page then skip else taken)
          else skip)
      else stop_at (p ∷ ps) selected

  unfoldable pub collect_pages_4k : List ActcData → ℕ → (ℕ → ℕ) → Collected
  unfolding collect_4k_loop
  collect_pages_4k ps take_at_threshold selected = collect_4k_loop ps 0 0 take_at_threshold selected

-- The pre-pass of `CollectPagesVm`: how many unselected pages of the threshold's frequency stand on
-- each level of priority. `(actc_t)thresholdFreq` is a byte.
unfoldable pub count_priors : ℕ → List ActcData → (ℕ → ℕ) → ℕ → ℕ
count_priors threshold [] counts = counts
count_priors threshold (p ∷ ps) counts = count_priors threshold ps (
    if p.is_selected
    then counts
    else if p.freq == threshold % 256
    then update counts p.prior (counts p.prior + 1)
    else counts)

-- `for (p = PRIOR_MAX_VALUE; p >= 0 && remaining > 0; --p)`: the quota of each level, highest first.
unfoldable pub quota_loop : (ℕ → ℕ) → ℕ → ℕ → (ℕ → ℕ) → ℕ → ℕ
quota_loop counts zero remaining take_from = take_from
quota_loop counts (suc p) remaining take_from =
    let take = min (counts p) remaining in
    let rest = quota_loop counts p (remaining - take) (update take_from p take) in
    if ltb 0 remaining then rest else take_from

abbrev pub prior_levels : ℕ
prior_levels = 64

unfoldable pub prior_quotas : ℕ → List ActcData → ℕ → ℕ → ℕ
unfolding count_priors quota_loop
prior_quotas threshold ps take_at_threshold =
    quota_loop (count_priors threshold ps (λ _. 0)) prior_levels take_at_threshold (λ _. 0)

-- `!shouldTake && freq == thresholdFreq && takeFrom[prior] > 0`, and what it leaves of the quotas.
abbrev pub by_quota : SelectionMode → ℕ → (ℕ → ℕ) → ActcData → Bool
by_quota mode threshold take_from p =
    not (beyond mode p.freq threshold) && (p.freq == threshold) && ltb 0 (take_from p.prior)

abbrev pub quotas_left : SelectionMode → ℕ → (ℕ → ℕ) → ActcData → ℕ → ℕ
quotas_left mode threshold take_from p =
    if by_quota mode threshold take_from p
    then update take_from p.prior (take_from p.prior - 1)
    else take_from

module _ (mode : SelectionMode) (from_local : Bool) (nr_mig threshold : ℕ) where
  -- A page at the threshold uses up its level's quota before the white list is looked at.
  unfoldable pub collect_vm_loop : List ActcData → ℕ → ℕ → (ℕ → ℕ) → (ℕ → ℕ) → Collected
  collect_vm_loop [] i count take_from selected = stop_at [] selected
  collect_vm_loop (p ∷ ps) i count take_from selected =
      let left = quotas_left mode threshold take_from p in
      let skip = skip_page p (collect_vm_loop ps (i + 1) count take_from selected) in
      let passed = skip_page p (collect_vm_loop ps (i + 1) count left selected) in
      let taken =
        take_page p i (collect_vm_loop ps (i + 1) (count + 1) left (bump selected p.freq)) in
      if ltb count nr_mig
      then (if p.is_selected
          then skip
          else if beyond mode p.freq threshold || by_quota mode threshold take_from p
          then (if from_local && p.is_white_list_page then passed else taken)
          else skip)
      else stop_at (p ∷ ps) selected

  unfoldable pub collect_pages_vm : List ActcData → ℕ → (ℕ → ℕ) → Collected
  unfolding collect_vm_loop prior_quotas
  collect_pages_vm ps take_at_threshold selected =
      collect_vm_loop ps 0 0 (prior_quotas threshold ps take_at_threshold) selected
