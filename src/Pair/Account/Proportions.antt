-- ===== src/Pair/Account/Proportions.antt =====
-- The distribution of an account in proportion to weights.
use ubturbo.Pair.Distribute.{u64_sum}
use ubturbo.Pair.Distribute.Shares.{cancel-le}
use native.Mathlib.Nat.{div-add-mod, mod-lt, mul-le-mul_right, div-le_of_le-mul, mul_comm}
use ubturbo.Pair.Distribute.Floors.{sum, combine, u64_sum-exact}
use ubturbo.Pair.Account.{add_remainder, proportions, distribute_pair_account}
use ubturbo.Prelude.{
  ◌^◌, ◌∷◌, ◌+◌, [], ◌⊎◌, ◌-◌, arith, not, Bool, ◌||◌, true, refl, ℕ, ◌≤◌, ◌<◌, List, ◌≡◌, ◌*◌,
  ◌==◌, if_ind, if◌then◌else◌, length, u32, ◌/◌, false, ◌%◌, All, u64, inr, inl,
}

-- The places that the remainder goes to.
abbrev places : List Bool → List ℕ → ℕ
places [] ws = 0
places (m ∷ ms) [] = 0
places (m ∷ ms) (w ∷ ws) = (if not m || w == 0 then 0 else 1) + places ms ws

-- A weight stands only inside the mask, for each place of it.
abbrev pub IsWeighted : List Bool → List ℕ → Type 0
IsWeighted [] [] = Unit
IsWeighted [] (w ∷ ws) = ⊥
IsWeighted (m ∷ ms) [] = ⊥
IsWeighted (m ∷ ms) (w ∷ ws) = ((m ≡ true) ⊎ (w ≡ 0)) × IsWeighted ms ws

-- A page count for a weight, rounded down.
record IsPart (actual total w a : ℕ) : Type 0 where
  low : total * a ≤ actual * w
  high : actual * w < total * a + total

add_remainder-sum :
    (ms : List Bool) (ws ps : List ℕ) (n : ℕ)
    → length ws ≡ length ms
    → length ps ≡ length ms
    → n ≤ places ms ws
    → sum ps + n < 2 ^ 32
    → sum (add_remainder ms ws ps n) ≡ sum ps + n
unfolding add_remainder
add_remainder-sum [] ws ps n h k enough small = omega arith
add_remainder-sum (m ∷ ms) [] ps n h k enough small = absurd (omega arith)
add_remainder-sum (m ∷ ms) (w ∷ ws) [] n h k enough small = absurd (omega arith)
add_remainder-sum (m ∷ ms) (w ∷ ws) (p ∷ ps) n h k enough small =
    if_ind (λ l. sum l ≡ (p + sum ps) + n) (n == 0) (λ none_left. ground arith)
      (λ more.
        if_ind (λ l. sum l ≡ (p + sum ps) + n) (not m || w == 0)
          (λ skip.
            let same : places (m ∷ ms) (w ∷ ws) ≡ places ms ws = rw skip (omega arith) in
            omega (
              arith,
              add_remainder-sum ms ws ps n (omega arith) (omega arith) (omega arith) (omega arith),
            ))
          (λ take.
            let fewer : places (m ∷ ms) (w ∷ ws) ≡ 1 + places ms ws = rw take refl in
            let pos : 0 < n = ground arith in
            let word : u32 (p + 1) ≡ p + 1 = omega arith in
            rw word (
              omega (
                arith,
                add_remainder-sum ms ws ps (n - 1) (omega arith) (omega arith) (omega arith)
                    (omega arith),
              ))))

product_lt : (a b : ℕ) → a < 2 ^ 32 → b < 2 ^ 32 → a * b < 2 ^ 64
product_lt a b h k =
    let wide : a * b ≤ 4294967295 * b = mul-le-mul_right b (omega arith) in omega arith

proportion-Part :
    (actual total w : ℕ)
    → 0 < total
    → w ≤ total
    → actual < 2 ^ 32
    → w < 2 ^ 32
    → IsPart actual total w (u32 (u64 (actual * w) / total))
proportion-Part actual total w pos fits small_a small_w =
    let q = actual * w / total in
    let product : u64 (actual * w) ≡ actual * w =
      omega (arith, product_lt actual w small_a small_w) in
    let parts : total * q + actual * w % total ≡ actual * w = div-add-mod (actual * w) total in
    let rest : actual * w % total < total = mod-lt (actual * w) pos in
    let bound : actual * w ≤ total * actual =
      rw (mul_comm actual w) (mul-le-mul_right actual fits) in
    let small : q ≤ actual = div-le_of_le-mul total bound in
    let word : u32 q ≡ q = omega arith in
    rw (product, word) (record { low = omega arith; high = omega arith })

nothing-le : (a w b : ℕ) → w ≡ 0 → a * w ≤ b
nothing-le a w b h = rw h (omega arith)

unweighted : (m : Bool) (w : ℕ) → m ≡ false → (m ≡ true) ⊎ (w ≡ 0) → w ≡ 0
unweighted m w h (inl e) = absurd (cc (h, e))
unweighted m w h (inr e) = e

module _ (actual total : ℕ) (pos : 0 < total) (small : actual < 2 ^ 32) where
  proportions-low :
      (ms : List Bool) (ws : List ℕ)
      → IsWeighted ms ws
      → All (λ w. (w ≤ total) × (w < 2 ^ 32)) ws
      → (length ws ≡ length ms)
        × (length (proportions ms ws total actual) ≡ length ms)
        × (total * sum (proportions ms ws total actual) ≤ actual * sum ws)
        × (actual * sum ws ≤ total * (sum (proportions ms ws total actual) + places ms ws))
  proportions-low [] [] h k = (refl, refl, omega arith, omega arith)
  proportions-low [] (w ∷ ws) h k = absurd h
  proportions-low (m ∷ ms) [] h k = absurd h
  proportions-low (true ∷ ms) (w ∷ ws) h k =
      let (same, same', low, high) = proportions-low ms ws h.1 k.1 in
      let part = proportion-Part actual total w pos k.0.0 small k.0.1 in
      (
        omega arith,
        omega arith,
        grind (arith, part.low),
        combine actual total w (u32 (u64 (actual * w) / total)) (if w == 0 then 0 else 1) (sum ws)
            (sum (proportions ms ws total actual)) (places ms ws)
            (if_ind (λ j. actual * w ≤ total * (u32 (u64 (actual * w) / total) + j)) (w == 0)
              (λ none_left.
                nothing-le actual w (total * (u32 (u64 (actual * w) / total) + 0)) (ground arith))
              (λ some_left. grind (arith, part.high)))
            high,
      )
  proportions-low (false ∷ ms) (w ∷ ws) h k =
      let (same, same', low, high) = proportions-low ms ws h.1 k.1 in
      let none_left = unweighted false w refl h.0 in
      (
        omega arith,
        omega arith,
        rw none_left (grind (arith, low)),
        rw none_left (grind (arith, high)),
      )

-- An account is distributed without a page lost or made up, when the weights are those inside the
-- mask, add up to the total, and are not all 0.
pub distribute_pair_account-Exact :
    (ms : List Bool) (ws : List ℕ) (actual : ℕ)
    → IsWeighted ms ws
    → All (λ w. (w ≤ sum ws) × (w < 2 ^ 32)) ws
    → 0 < sum ws
    → actual < 2 ^ 32
    → sum (distribute_pair_account ms ws (sum ws) actual) ≡ actual
unfolding distribute_pair_account
distribute_pair_account-Exact ms ws actual weighted bounded pos small =
    let total = sum ws in
    let ps = proportions ms ws total actual in
    let (same, same', low, high) = proportions-low actual total pos small ms ws weighted bounded in
    let no_more : sum ps ≤ actual = cancel-le total (sum ps) actual pos low in
    let enough : actual ≤ sum ps + places ms ws =
      cancel-le total actual (sum ps + places ms ws) pos
        (rw (mul_comm total actual, mul_comm (sum ps + places ms ws) total) high) in
    let exact : u64_sum 0 ps ≡ sum ps = rw (u64_sum-exact 0 ps (omega arith)) (omega arith) in
    let left : u32 (actual + 2 ^ 64 - sum ps) ≡ actual - sum ps = omega arith in
    rw (exact, left)
      (omega (
        arith,
        add_remainder-sum ms ws ps (actual - sum ps) same same' (omega arith) (omega arith),
      ))
