-- ===== src/Pair/Distribute/Floors.antt =====
-- The first loop of `DistributePairRequestPages`: every share rounded down.
use native.Mathlib.Nat.{div-add-mod, mod-lt, mul-le-mul_right, div-le_of_le-mul}
use mathlib.Core.Path.{subst}
use ubturbo.Pair.Distribute.{u64_sum, pair_request_mul_div, round_down}
use ubturbo.Prelude.{
  arith, ◌^◌, ◌*◌, List, ◌∷◌, ◌<◌, ◌≤◌, [], ◌+◌, ℕ, ◌≡◌, leb, if◌then◌else◌, u64, ◌/◌, false, ◌%◌,
  ◌==◌, All, if_ind, leb→le,
}

abbrev pub sum : List ℕ → ℕ
sum [] = 0
sum (x ∷ xs) = x + sum xs

pub u64_sum-exact : (acc : ℕ) (xs : List ℕ) → acc + sum xs < 2 ^ 64 → u64_sum acc xs ≡ acc + sum xs
u64_sum-exact acc [] h = omega arith
u64_sum-exact acc (x ∷ xs) h =
    let small : u64 (acc + x) ≡ acc + x = omega arith in
    rw (small, u64_sum-exact (acc + x) xs (omega arith)) (omega arith)

-- A relation at each place of two lists of the same length.
abbrev pub All2 : (ℕ → ℕ → Type 0) → List ℕ → List ℕ → Type 0
All2 P [] [] = Unit
All2 P [] (b ∷ ys) = ⊥
All2 P (a ∷ xs) [] = ⊥
All2 P (a ∷ xs) (b ∷ ys) = P a b × All2 P xs ys

-- The places whose allocation is below the weight.
abbrev pub below : List ℕ → List ℕ → ℕ
below [] xs = 0
below (w ∷ ws) [] = 0
below (w ∷ ws) (a ∷ xs) = (if leb w a then 0 else 1) + below ws xs

-- The share of `pages` out of `total` for a weight, rounded down.
pub record IsFloor (pages total w a : ℕ) : Type 0 where
  pub within : a ≤ w
  pub low : total * a ≤ pages * w
  pub high : pages * w < total * a + total
  pub exact : w ≤ a → pages * w ≤ total * a

mul_div-Floor :
    (pages total w : ℕ)
    → 0 < total
    → pages ≤ total
    → w < 2 ^ 64
    → IsFloor pages total w (pair_request_mul_div pages w total)
mul_div-Floor pages total w pos capped small =
    let q = pages * w / total in
    let parts : total * q + pages * w % total ≡ pages * w = div-add-mod (pages * w) total in
    let rest : pages * w % total < total = mod-lt (pages * w) pos in
    let bound : pages * w ≤ total * w = mul-le-mul_right w capped in
    let below_w : q ≤ w = div-le_of_le-mul total bound in
    let nonzero : (total == 0) ≡ false = ground arith in
    let word : u64 q ≡ q = omega arith in
    rw (nonzero, word)
      (record {
        within = below_w;
        low = omega arith;
        high = omega arith;
        exact =
            λ full. let same : w ≡ q = omega arith in subst (λ k. pages * w ≤ total * k) same bound;
      })

pub combine :
    (p t w x k s xs b : ℕ)
    → p * w ≤ t * (x + k)
    → p * s ≤ t * (xs + b)
    → p * (w + s) ≤ t * ((x + xs) + (k + b))
combine p t w x k s xs b h e = grind arith

module _ (pages total : ℕ) (pos : 0 < total) where
  pub round_down-Floor :
      (ws : List ℕ)
      → pages ≤ total
      → All (λ w. w < 2 ^ 64) ws
      → All2 (IsFloor pages total) ws (round_down pages total ws)
  round_down-Floor [] capped h = tt
  round_down-Floor (w ∷ ws) capped h =
      (mul_div-Floor pages total w pos capped h.0, round_down-Floor ws capped h.1)

  -- Rounding down never allocates more than all pages, and leaves at most one for each place that is
  -- below its weight.
  pub floors-low :
      (ws xs : List ℕ) → All2 (IsFloor pages total) ws xs → total * sum xs ≤ pages * sum ws
  floors-low [] [] h = omega arith
  floors-low [] (x ∷ xs) h = absurd h
  floors-low (w ∷ ws) [] h = absurd h
  floors-low (w ∷ ws) (x ∷ xs) h = grind (arith, h.0.low, floors-low ws xs h.1)

  floor-high :
      (w a : ℕ) → IsFloor pages total w a → pages * w ≤ total * (a + (if leb w a then 0 else 1))
  floor-high w a h =
      if_ind (λ k. pages * w ≤ total * (a + k)) (leb w a)
        (λ full. grind (arith, h.exact (leb→le w a full))) (λ room. grind (arith, h.high))

  pub floors-high :
      (ws xs : List ℕ)
      → All2 (IsFloor pages total) ws xs
      → pages * sum ws ≤ total * (sum xs + below ws xs)
  floors-high [] [] h = omega arith
  floors-high [] (x ∷ xs) h = absurd h
  floors-high (w ∷ ws) [] h = absurd h
  floors-high (w ∷ ws) (x ∷ xs) h =
      combine pages total w x (if leb w x then 0 else 1) (sum ws) (sum xs) (below ws xs)
        (floor-high w x h.0) (floors-high ws xs h.1)
