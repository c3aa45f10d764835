-- ===== src/Pair/Account.antt =====
-- The account of one remote node, the pages that each local node has there: `DistributePairAccount`,
-- `RebuildPairAccount` and the body of the loop of `CalibratePairAccount`. An array over the local
-- nodes that are online is a list, a mask a list of Bool.
pub mod Proportions
pub mod Exact
use ubturbo.Pair.Distribute.{u64_sum}
use ubturbo.Prelude.{
  ◌^◌, ◌∷◌, ◌+◌, [], ◌/◌, ◌&&◌, ◌-◌, not, Bool, ◌||◌, true, ℕ, List, ◌*◌, ltb, ◌==◌, if◌then◌else◌,
  u32, u64,
}

-- `actualRemotePages * weights[local] / weightTotal` inside the mask.
abbrev pub proportions : List Bool → List ℕ → ℕ → ℕ → List ℕ
proportions [] weights total actual = []
proportions (m ∷ mask) [] total actual = []
proportions (m ∷ mask) (w ∷ weights) total actual =
    (if m then u32 (u64 (actual * w) / total) else 0) ∷ proportions mask weights total actual

-- One page more for each in turn that is in the mask and has a weight.
unfoldable pub add_remainder : List Bool → List ℕ → List ℕ → ℕ → List ℕ
add_remainder [] weights pages remainder = pages
add_remainder (m ∷ mask) [] pages remainder = pages
add_remainder (m ∷ mask) (w ∷ weights) [] remainder = []
add_remainder (m ∷ mask) (w ∷ weights) (p ∷ pages) remainder =
    let skipped = add_remainder mask weights pages remainder in
    let raised = add_remainder mask weights pages (remainder - 1) in
    if remainder == 0
    then p ∷ pages
    else if not m || w == 0
    then p ∷ skipped
    else u32 (p + 1) ∷ raised

unfoldable pub distribute_pair_account : List Bool → List ℕ → ℕ → ℕ → List ℕ
distribute_pair_account mask weights weight_total actual =
    let pages = proportions mask weights weight_total actual in
    let allocated = u64_sum 0 pages in
    add_remainder mask weights pages (u32 (actual + 2 ^ 64 - allocated))

-- Masks, place by place.
abbrev pub mask_and : List Bool → List Bool → List Bool
mask_and [] ys = []
mask_and (x ∷ xs) [] = []
mask_and (x ∷ xs) (y ∷ ys) = (x && y) ∷ mask_and xs ys

abbrev pub mask_or : List Bool → List Bool → List Bool
mask_or [] ys = []
mask_or (x ∷ xs) [] = []
mask_or (x ∷ xs) (y ∷ ys) = (x || y) ∷ mask_or xs ys

abbrev pub is_zero : List Bool → Bool
is_zero [] = true
is_zero (x ∷ xs) = not x && is_zero xs

abbrev pub all_of : List Bool → List Bool
all_of [] = []
all_of (x ∷ xs) = true ∷ all_of xs

-- A value inside the mask and 0 elsewhere.
abbrev pub masked : List Bool → List ℕ → List ℕ
masked [] values = []
masked (m ∷ mask) [] = []
masked (m ∷ mask) (v ∷ values) = (if m then v else 0) ∷ masked mask values

abbrev pub ones : List Bool → List ℕ
ones [] = []
ones (m ∷ mask) = (if m then 1 else 0) ∷ ones mask

-- The nodes whose weights count: managed ones with capacity or residents, else the managed ones, else
-- all that are online.
abbrev pub rebuild_mask : List Bool → List Bool → List Bool → List Bool
rebuild_mask managed capacity resident =
    let chosen = mask_and managed (mask_or capacity resident) in
    if is_zero chosen then if is_zero managed then all_of managed else managed else chosen

unfoldable pub rebuild_pair_account : List Bool → List Bool → List Bool → List ℕ → ℕ → List ℕ
rebuild_pair_account managed capacity resident nr_pages actual =
    let mask = rebuild_mask managed capacity resident in
    let weights = masked mask nr_pages in
    let weight_total = u64_sum 0 weights in
    if weight_total == 0
    then distribute_pair_account mask (ones mask) (u64_sum 0 (ones mask)) actual
    else distribute_pair_account mask weights weight_total actual

-- The nodes with pages in the account.
abbrev pub account_mask : List ℕ → List Bool
account_mask [] = []
account_mask (a ∷ account) = ltb 0 a ∷ account_mask account

abbrev pub zeros : List ℕ → List ℕ
zeros [] = []
zeros (a ∷ account) = 0 ∷ zeros account

-- One remote node: its account, and the pages that are there.
unfoldable pub calibrate_pair_account :
    List Bool → List Bool → List Bool → List ℕ → List ℕ → ℕ → List ℕ
calibrate_pair_account managed capacity resident nr_pages account actual =
    let account_total = u64_sum 0 account in
    if account_total == actual
    then account
    else if actual == 0
    then zeros account
    else if ltb 0 account_total
    then distribute_pair_account (account_mask account) account account_total actual
    else rebuild_pair_account managed capacity resident nr_pages actual
