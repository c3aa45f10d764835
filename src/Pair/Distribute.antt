-- ===== src/Pair/Distribute.antt =====
-- How pages are shared out in proportion to weights: `PairRequestMulDiv` and
-- `DistributePairRequestPages`. An array of `count` elements is a list.
pub mod Floors
pub mod Shares
use ubturbo.Prelude.{◌*◌, List, ◌∷◌, ◌/◌, [], ◌+◌, ℕ, leb, if◌then◌else◌, ltb, ◌==◌, u64, min}

-- The product has 128 bits, and does not wrap.
abbrev pub pair_request_mul_div : ℕ → ℕ → ℕ → ℕ
pair_request_mul_div value weight total = if total == 0 then 0 else u64 (value * weight / total)

-- `sum += element` along an array, in 64 bits.
abbrev pub u64_sum : ℕ → List ℕ → ℕ
u64_sum acc [] = acc
u64_sum acc (x ∷ xs) = u64_sum (u64 (acc + x)) xs

-- One page more for each in turn that is below its weight, until all pages are allocated.
unfoldable pub add_left : ℕ → List ℕ → List ℕ → ℕ → List ℕ
add_left pages [] allocation allocated = allocation
add_left pages (w ∷ weights) [] allocated = []
add_left pages (w ∷ weights) (a ∷ allocation) allocated =
    let kept = add_left pages weights allocation allocated in
    let raised = add_left pages weights allocation (u64 (allocated + 1)) in
    if ltb allocated pages
    then if leb w a then a ∷ kept else u64 (a + 1) ∷ raised
    else a ∷ allocation

-- The shares rounded down.
abbrev pub round_down : ℕ → ℕ → List ℕ → List ℕ
round_down pages total [] = []
round_down pages total (w ∷ weights) =
    pair_request_mul_div pages w total ∷ round_down pages total weights

unfoldable pub distribute_pair_request_pages : ℕ → List ℕ → List ℕ
distribute_pair_request_pages pages weights =
    let total = u64_sum 0 weights in
    let capped = min pages total in
    let allocation = round_down capped total weights in
    add_left capped weights allocation (u64_sum 0 allocation)
