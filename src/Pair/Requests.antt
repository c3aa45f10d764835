-- ===== src/Pair/Requests.antt =====
-- The pages that each pair of nodes is asked to hold: `BuildEffectiveRemotePages` over the remote
-- nodes, and `PreservePairAccounts` and `AllocateRemotePairRequest` over the local nodes of one
-- remote node. Arrays of the source are lists of the same length; a mask is a list of Bool.
pub mod Bounds
use ubturbo.Pair.Distribute.{u64_sum, distribute_pair_request_pages}
use ubturbo.Prelude.{◌-◌, List, ◌+◌, ℕ, [], Bool, ◌∷◌, leb, ltb, if◌then◌else◌, u64, min}

-- `effective[i] += allocation[i]`
unfoldable pub add_each : List ℕ → List ℕ → List ℕ
add_each [] ys = []
add_each (x ∷ xs) [] = x ∷ xs
add_each (x ∷ xs) (y ∷ ys) = u64 (x + y) ∷ add_each xs ys

-- `MIN(actualPages, requestedPages)` of each node.
abbrev pub baselines : List ℕ → List ℕ → List ℕ
baselines [] requested = []
baselines (a ∷ actual) [] = []
baselines (a ∷ actual) (r ∷ requested) = min a r ∷ baselines actual requested

-- `requestedPages - baseline`
abbrev pub demands : List ℕ → List ℕ → List ℕ
demands [] requested = []
demands (a ∷ actual) [] = []
demands (a ∷ actual) (r ∷ requested) = (r - min a r) ∷ demands actual requested

-- The pages of the remote nodes that a process has, those that its target asks for, and all managed.
unfoldable pub build_effective_remote_pages : List ℕ → List ℕ → ℕ → List ℕ
build_effective_remote_pages actual requested managed_total_pages =
    let baseline = baselines actual requested in
    let remaining_demand = demands actual requested in
    let baseline_total = u64_sum 0 baseline in
    let demand_total = u64_sum 0 remaining_demand in
    let available_pages =
      if ltb baseline_total managed_total_pages then managed_total_pages - baseline_total else 0 in
    let pages_to_allocate = min available_pages demand_total in
    add_each baseline (distribute_pair_request_pages pages_to_allocate remaining_demand)

-- The accounts of the eligible local nodes, 0 elsewhere.
abbrev pub eligible_accounts : List Bool → List ℕ → List ℕ
eligible_accounts [] accounts = []
eligible_accounts (e ∷ eligible) [] = []
eligible_accounts (e ∷ eligible) (a ∷ accounts) =
    (if e then a else 0) ∷ eligible_accounts eligible accounts

-- One remote node; `target` is its entry of `effectiveRemotePages`.
unfoldable pub preserve_pair_accounts : List Bool → List ℕ → ℕ → List ℕ
preserve_pair_accounts eligible pages_after_migrate target =
    let accounts = eligible_accounts eligible pages_after_migrate in
    if leb (u64_sum 0 accounts) target
    then accounts
    else distribute_pair_request_pages target accounts
