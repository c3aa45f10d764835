-- ===== src/Pair/Allocate.antt =====
-- `AllocateRemotePairRequest` of plugins/smap/src/user/manage/manage_pair.c: the pages that the local
-- nodes add to their requests for one remote node. Arrays over the local nodes are lists of the same
-- length; `active` is the mask of `BuildActivePairMask`.
pub mod Conserved
use ubturbo.Pair.Requests.{add_each}
use ubturbo.Pair.Distribute.{u64_sum, distribute_pair_request_pages}
use ubturbo.Prelude.{
  [], ◌+◌, ℕ, ◌∷◌, Bool, ◌^◌, ◌||◌, List, not, ◌-◌, if◌then◌else◌, leb, ◌==◌, u32_max, u64, min,
}

-- The room of each node: its remaining pages, up to UINT32_MAX for its request.
abbrev pub rooms : List Bool → List ℕ → List ℕ → List ℕ → List ℕ
rooms [] nr_pages requests remaining = []
rooms (a ∷ active) [] requests remaining = []
rooms (a ∷ active) (n ∷ nr_pages) [] remaining = []
rooms (a ∷ active) (n ∷ nr_pages) (q ∷ requests) [] = []
rooms (a ∷ active) (n ∷ nr_pages) (q ∷ requests) (r ∷ remaining) =
    (if not a || n == 0 || leb u32_max q then 0 else min r (u32_max - q))
    ∷ rooms active nr_pages requests remaining

-- `remainingPages[local] -= allocation[local]`
unfoldable pub take_each : List ℕ → List ℕ → List ℕ
take_each [] ys = []
take_each (x ∷ xs) [] = x ∷ xs
take_each (x ∷ xs) (y ∷ ys) = u64 (x + 2 ^ 64 - y) ∷ take_each xs ys

unfoldable pub allocate_remote_pair_request :
    List Bool → List ℕ → ℕ → List ℕ → List ℕ → List ℕ × List ℕ
allocate_remote_pair_request active nr_pages requested requests remaining =
    let current = u64_sum 0 requests in
    let allocation =
      distribute_pair_request_pages (requested - current)
        (rooms active nr_pages requests remaining) in
    if leb requested current
    then (requests, remaining)
    else (add_each requests allocation, take_each remaining allocation)
