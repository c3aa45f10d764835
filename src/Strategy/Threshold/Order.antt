-- ===== src/Strategy/Threshold/Order.antt =====
-- The order in which the buckets are visited, and sums along it.
use ubturbo.Prelude.{
  ℕ, zero, suc, ◌+◌, ◌≤◌, ◌<◌, ◌≡◌, refl, true, false, List, [], ◌∷◌, arith, if◌then◌else◌, All,
  length, ap, ◌^◌, ◌*◌, Bool,
}
use ubturbo.Strategy.Actc.{SelectionMode, select_top_k, select_bottom_k, beyond}
use ubturbo.Strategy.Threshold.{descending, ascending, visited}

-- Every index comes before all later ones in the order of the mode.
abbrev pub Ordered : SelectionMode → List ℕ → Type 0
Ordered mode [] = Unit {0}
Ordered mode (i ∷ is) = All (λ j. beyond mode i j ≡ true) is × Ordered mode is

-- The sum of the buckets that a test selects along the indices, of all of them, and of those beyond
-- a threshold.
abbrev pub sum_if : (ℕ → Bool) → (ℕ → ℕ) → List ℕ → ℕ
sum_if test b [] = 0
sum_if test b (i ∷ is) = (if test i then b i else 0) + sum_if test b is

abbrev pub sum_over : (ℕ → ℕ) → List ℕ → ℕ
sum_over b is = sum_if (λ _. true) b is

abbrev pub sum_beyond : SelectionMode → (ℕ → ℕ) → ℕ → List ℕ → ℕ
sum_beyond mode b t is = sum_if (λ i. beyond mode i t) b is

descending-below : (n k : ℕ) → n ≤ k → All (λ j. beyond select_top_k k j ≡ true) (descending n)
descending-below zero k h = tt
descending-below (suc n) k h = (ground arith, descending-below n k (omega arith))

descending-Ordered : (n : ℕ) → Ordered select_top_k (descending n)
descending-Ordered zero = tt
descending-Ordered (suc n) = (descending-below n n (omega arith), descending-Ordered n)

ascending-above :
    (n from k : ℕ) → k < from → All (λ j. beyond select_bottom_k k j ≡ true) (ascending n from)
ascending-above zero from k h = tt
ascending-above (suc n) from k h = (ground arith, ascending-above n (from + 1) k (omega arith))

ascending-Ordered : (n from : ℕ) → Ordered select_bottom_k (ascending n from)
ascending-Ordered zero from = tt
ascending-Ordered (suc n) from =
    (ascending-above n (from + 1) from (omega arith), ascending-Ordered n (from + 1))

pub visited-Ordered : (mode : SelectionMode) → Ordered mode (visited mode)
visited-Ordered select_top_k = descending-Ordered 256
visited-Ordered select_bottom_k = ascending-Ordered 256 0

-- Nothing after the threshold lies beyond it.
pub sum_beyond-zero :
    (mode : SelectionMode) (b : ℕ → ℕ) (t : ℕ) (is : List ℕ)
    → All (λ j. beyond mode t j ≡ true) is
    → sum_beyond mode b t is ≡ 0
sum_beyond-zero mode b t [] h = refl
sum_beyond-zero select_top_k b t (i ∷ is) h =
    ground (arith, sum_beyond-zero select_top_k b t is h.1)
sum_beyond-zero select_bottom_k b t (i ∷ is) h =
    ground (arith, sum_beyond-zero select_bottom_k b t is h.1)

-- The threshold itself is not beyond it.
pub beyond_self : (mode : SelectionMode) (t : ℕ) → beyond mode t t ≡ false
beyond_self select_top_k t = ground arith
beyond_self select_bottom_k t = ground arith

pub sum_over-lt :
    (b : ℕ → ℕ) (is : List ℕ) → All (λ i. b i < 2 ^ 32) is → sum_over b is ≤ 2 ^ 32 * length is
sum_over-lt b [] h = omega arith
sum_over-lt b (i ∷ is) h = omega (arith, sum_over-lt b is h.1)

descending-lt : (n k : ℕ) → n ≤ k → All (λ i. i < k) (descending n)
descending-lt zero k h = tt
descending-lt (suc n) k h = (omega arith, descending-lt n k (omega arith))

ascending-lt : (n from k : ℕ) → from + n ≤ k → All (λ i. i < k) (ascending n from)
ascending-lt zero from k h = tt
ascending-lt (suc n) from k h = (omega arith, ascending-lt n (from + 1) k (omega arith))

-- Only the 256 buckets are visited.
pub visited-lt : (mode : SelectionMode) → All (λ i. i < 256) (visited mode)
visited-lt select_top_k = descending-lt 256 256 (omega arith)
visited-lt select_bottom_k = ascending-lt 256 0 256 (omega arith)

length-descending : (n : ℕ) → length (descending n) ≡ n
length-descending zero = refl
length-descending (suc n) = ap suc (length-descending n)

length-ascending : (n from : ℕ) → length (ascending n from) ≡ n
length-ascending zero from = refl
length-ascending (suc n) from = ap suc (length-ascending n (from + 1))

pub length-visited : (mode : SelectionMode) → length (visited mode) ≡ 256
length-visited select_top_k = length-descending 256
length-visited select_bottom_k = length-ascending 256 0
