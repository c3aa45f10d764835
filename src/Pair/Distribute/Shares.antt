-- ===== src/Pair/Distribute/Shares.antt =====
-- What `DistributePairRequestPages` allocates.
use native.Mathlib.Decide.{dec_lt}
use ubturbo.Pair.Distribute.Floors.{
  sum, below, All2, IsFloor, u64_sum-exact, round_down-Floor, floors-low, floors-high,
}
use native.Mathlib.Nat.{mul_comm}
use mathlib.Core.Path.{subst}
use ubturbo.Pair.Distribute.{u64_sum, round_down, add_left, distribute_pair_request_pages}
use ubturbo.Prelude.{
  arith, ◌^◌, ◌*◌, List, ◌∷◌, ◌<◌, ◌≤◌, [], ◌+◌, ℕ, ◌≡◌, leb, u64, All, if_ind, refl, ltb→lt, ltb,
  sym, min, length,
}

-- All pages that are missing are added, when the places below their weight are enough.
add_left-sum :
    (pages : ℕ) (ws xs : List ℕ) (allocated : ℕ)
    → pages < 2 ^ 64
    → All (λ w. w < 2 ^ 64) ws
    → All2 (λ w x. x ≤ w) ws xs
    → allocated ≤ pages
    → pages ≤ allocated + below ws xs
    → allocated + sum (add_left pages ws xs allocated) ≡ pages + sum xs
unfolding add_left
add_left-sum pages [] [] allocated small ws_small fits h k = omega arith
add_left-sum pages [] (x ∷ xs) allocated small ws_small fits h k = absurd fits
add_left-sum pages (w ∷ ws) [] allocated small ws_small fits h k = absurd fits
add_left-sum pages (w ∷ ws) (x ∷ xs) allocated small ws_small fits h k =
    if_ind (λ l. allocated + sum l ≡ pages + (x + sum xs)) (ltb allocated pages)
      (λ more.
        if_ind (λ l. allocated + sum l ≡ pages + (x + sum xs)) (leb w x)
          (λ full.
            let same : below (w ∷ ws) (x ∷ xs) ≡ below ws xs = rw full (omega arith) in
            omega
              (arith, add_left-sum pages ws xs allocated small ws_small.1 fits.1 h (omega arith)))
          (λ room.
            let lower : x < w = ground arith in
            let less : allocated < pages = ltb→lt allocated pages more in
            let word : u64 (x + 1) ≡ x + 1 = omega (arith, ws_small.0) in
            let next : u64 (allocated + 1) ≡ allocated + 1 = omega arith in
            let fewer : below (w ∷ ws) (x ∷ xs) ≡ 1 + below ws xs = rw room refl in
            let rest =
              add_left-sum pages ws xs (allocated + 1) small ws_small.1 fits.1 (omega arith)
                (omega arith) in
            rw (word, next) (omega (arith, rest))))
      (λ enough. ground arith)

-- A share: no more than the weight, and within one page of the exact proportion.
pub record IsShare (pages total w b : ℕ) : Type 0 where
  pub within : b ≤ w
  pub low : total * b ≤ pages * w + total
  pub high : pages * w < total * b + total

raised-Share :
    (pages total w x : ℕ) → IsFloor pages total w x → x < w → IsShare pages total w (x + 1)
raised-Share pages total w x h room = record {
  within = omega arith;
  low = grind (arith, h.low);
  high = grind (arith, h.high);
}

floor-Share : (pages total w x : ℕ) → IsFloor pages total w x → IsShare pages total w x
floor-Share pages total w x h = record {
  within = h.within;
  low = omega (arith, h.low);
  high = h.high;
}

floors-Share :
    (pages total : ℕ) (ws xs : List ℕ)
    → All2 (IsFloor pages total) ws xs
    → All2 (IsShare pages total) ws xs
floors-Share pages total [] [] h = tt
floors-Share pages total [] (x ∷ xs) h = absurd h
floors-Share pages total (w ∷ ws) [] h = absurd h
floors-Share pages total (w ∷ ws) (x ∷ xs) h =
    (floor-Share pages total w x h.0, floors-Share pages total ws xs h.1)

floors-Within :
    (pages total : ℕ) (ws xs : List ℕ)
    → All2 (IsFloor pages total) ws xs
    → All2 (λ w x. x ≤ w) ws xs
floors-Within pages total [] [] h = tt
floors-Within pages total [] (x ∷ xs) h = absurd h
floors-Within pages total (w ∷ ws) [] h = absurd h
floors-Within pages total (w ∷ ws) (x ∷ xs) h = (h.0.within, floors-Within pages total ws xs h.1)

-- Each place gets its share rounded down, or one page more where that is below the weight.
add_left-Share :
    (pages total : ℕ) (ws xs : List ℕ) (allocated : ℕ)
    → All (λ w. w < 2 ^ 64) ws
    → All2 (IsFloor pages total) ws xs
    → All2 (IsShare pages total) ws (add_left pages ws xs allocated)
unfolding add_left
add_left-Share pages total [] [] allocated ws_small floors = tt
add_left-Share pages total [] (x ∷ xs) allocated ws_small floors = absurd floors
add_left-Share pages total (w ∷ ws) [] allocated ws_small floors = absurd floors
add_left-Share pages total (w ∷ ws) (x ∷ xs) allocated ws_small floors =
    if_ind (All2 (IsShare pages total) (w ∷ ws)) (ltb allocated pages)
      (λ more.
        if_ind (All2 (IsShare pages total) (w ∷ ws)) (leb w x)
          (λ full. (
            floor-Share pages total w x floors.0,
            add_left-Share pages total ws xs allocated ws_small.1 floors.1,
          ))
          (λ room.
            let lower : x < w = ground arith in
            let word : u64 (x + 1) ≡ x + 1 = omega (arith, ws_small.0) in
            (
              subst (IsShare pages total w) (sym word)
                  (raised-Share pages total w x floors.0 lower),
              add_left-Share pages total ws xs (u64 (allocated + 1)) ws_small.1 floors.1,
            )))
      (λ enough. (floor-Share pages total w x floors.0, floors-Share pages total ws xs floors.1))

pub elements-lt : (ws : List ℕ) (bound : ℕ) → sum ws < bound → All (λ w. w < bound) ws
elements-lt [] bound h = tt
elements-lt (w ∷ ws) bound h = (omega arith, elements-lt ws bound (omega arith))

pub cancel-le : (t a b : ℕ) → 0 < t → t * a ≤ b * t → a ≤ b
cancel-le t a b pos h = grind arith

-- The two loops, when the pages are no more than the weights together.
capped-IsShared :
    (pages : ℕ) (ws : List ℕ)
    → 0 < sum ws
    → sum ws < 2 ^ 64
    → pages ≤ sum ws
    → (sum (
          add_left pages ws
            (round_down pages (sum ws) ws)
            (u64_sum 0 (round_down pages (sum ws) ws)))
        ≡ pages)
      × All2 (IsShare pages (sum ws)) ws (
          add_left pages ws
            (round_down pages (sum ws) ws)
            (u64_sum 0 (round_down pages (sum ws) ws)))
capped-IsShared pages ws pos small capped =
    let total = sum ws in
    let xs = round_down pages total ws in
    let words = elements-lt ws (2 ^ 64) small in
    let floors = round_down-Floor pages total pos ws capped words in
    let low : sum xs ≤ pages =
      cancel-le total (sum xs) pages pos (floors-low pages total pos ws xs floors) in
    let high : pages ≤ sum xs + below ws xs = cancel-le total pages (sum xs + below ws xs) pos (
      rw (mul_comm total pages, mul_comm (sum xs + below ws xs) total)
        (floors-high pages total pos ws xs floors)) in
    let exact : u64_sum 0 xs ≡ sum xs = rw (u64_sum-exact 0 xs (omega arith)) (omega arith) in
    let added =
      add_left-sum pages ws xs (sum xs) (omega arith) words (floors-Within pages total ws xs floors)
        low high in
    rw exact (omega (arith, added), add_left-Share pages total ws xs (sum xs) words floors)

-- `DistributePairRequestPages` allocates exactly the pages asked for, or the weights together when
-- these are fewer, when the weights are not all 0 and add up to a 64-bit number; each place gets no
-- more than its weight, and is within one page of its exact proportion.
pub distribute_pair_request_pages-IsShared :
    (pages : ℕ) (ws : List ℕ)
    → 0 < sum ws
    → sum ws < 2 ^ 64
    → (sum (distribute_pair_request_pages pages ws) ≡ min pages (sum ws))
      × All2 (IsShare (min pages (sum ws)) (sum ws)) ws (distribute_pair_request_pages pages ws)
unfolding distribute_pair_request_pages
distribute_pair_request_pages-IsShared pages ws pos small =
    let exact : u64_sum 0 ws ≡ sum ws = rw (u64_sum-exact 0 ws (omega arith)) (omega arith) in
    rw exact (capped-IsShared (min pages (sum ws)) ws pos small (omega arith))

-- Nothing to share: the total of the weights is 0.
add_left-none : (ws xs : List ℕ) (a : ℕ) → length ws ≡ length xs → add_left 0 ws xs a ≡ xs
unfolding add_left
add_left-none [] xs a h = refl
add_left-none (w ∷ ws) [] a h = absurd (omega arith)
add_left-none (w ∷ ws) (x ∷ xs) a h = ground arith

round_down-none :
    (pages : ℕ) (ws : List ℕ)
    → (length ws ≡ length (round_down pages 0 ws))
      × (sum (round_down pages 0 ws) ≡ 0)
      × All2 (λ w x. x ≤ w) ws (round_down pages 0 ws)
round_down-none pages [] = (refl, refl, tt)
round_down-none pages (w ∷ ws) =
    let (same, zeros, fits) = round_down-none pages ws in
    (omega arith, omega arith, (omega arith, fits))

shares-Within :
    (pages total : ℕ) (ws xs : List ℕ)
    → All2 (IsShare pages total) ws xs
    → All2 (λ w x. x ≤ w) ws xs
shares-Within pages total [] [] h = tt
shares-Within pages total [] (x ∷ xs) h = absurd h
shares-Within pages total (w ∷ ws) [] h = absurd h
shares-Within pages total (w ∷ ws) (x ∷ xs) h = (h.0.within, shares-Within pages total ws xs h.1)

without_weights :
    (pages : ℕ) (ws : List ℕ)
    → sum ws ≡ 0
    → (sum (distribute_pair_request_pages pages ws) ≡ min pages (sum ws))
      × All2 (λ w x. x ≤ w) ws (distribute_pair_request_pages pages ws)
unfolding distribute_pair_request_pages
without_weights pages ws h =
    let exact : u64_sum 0 ws ≡ 0 = rw (u64_sum-exact 0 ws (omega arith)) (omega arith) in
    let zero_pages : min pages 0 ≡ 0 = omega arith in
    let (same, none_given, fits) = round_down-none 0 ws in
    rw (exact, zero_pages, add_left-none ws (round_down 0 0 ws) _ same, h)
      (omega (arith, none_given), fits)

-- What its callers use, also when every weight is 0.
pub distribute_pair_request_pages-Within :
    (pages : ℕ) (ws : List ℕ)
    → sum ws < 2 ^ 64
    → (sum (distribute_pair_request_pages pages ws) ≡ min pages (sum ws))
      × All2 (λ w x. x ≤ w) ws (distribute_pair_request_pages pages ws)
distribute_pair_request_pages-Within pages ws small = elim (dec_lt 0 (sum ws)) [
  | yes pos ↦
      let (total, shares) = distribute_pair_request_pages-IsShared pages ws pos small in
      (total, shares-Within _ _ ws (distribute_pair_request_pages pages ws) shares)
  | no none_left ↦ without_weights pages ws (omega arith)
]
