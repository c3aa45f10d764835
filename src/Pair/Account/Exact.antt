-- ===== src/Pair/Account/Exact.antt =====
-- What calibration makes of an account.
use ubturbo.Pair.Distribute.{u64_sum}
use ubturbo.Pair.Distribute.Floors.{sum, u64_sum-exact}
use ubturbo.Pair.Account.Proportions.{IsWeighted, distribute_pair_account-Exact}
use ubturbo.Pair.Account.{
  rebuild_pair_account, mask_and, is_zero, masked, mask_or, account_mask, ones,
  distribute_pair_account, zeros, all_of, rebuild_mask, calibrate_pair_account,
}
use ubturbo.Prelude.{
  ◌<◌, [], ℕ, Bool, inr, ◌∷◌, ap, ◌≤◌, true, ◌≡◌, List, inl, suc, arith, ◌^◌, refl, false, ◌⊎◌, ◌*◌,
  Bool-cases, if_ind, ◌==◌, ltb, length, All-zip, All, ltb→lt,
}

zeros-sum : (xs : List ℕ) → sum (zeros xs) ≡ 0
zeros-sum [] = refl
zeros-sum (x ∷ xs) = omega (arith, zeros-sum xs)

account_mask-Weighted : (xs : List ℕ) → IsWeighted (account_mask xs) xs
account_mask-Weighted [] = tt
account_mask-Weighted (x ∷ xs) = (weighted_place x, account_mask-Weighted xs)
  where
    weighted_place : (x : ℕ) → (ltb 0 x ≡ true) ⊎ (x ≡ 0)
    weighted_place x = elim (Bool-cases (ltb 0 x)) [ inl e ↦ inl e | inr e ↦ inr (ground arith) ]

masked-Weighted :
    (ms : List Bool) (xs : List ℕ) → length xs ≡ length ms → IsWeighted ms (masked ms xs)
masked-Weighted [] [] h = tt
masked-Weighted [] (x ∷ xs) h = absurd (omega arith)
masked-Weighted (m ∷ ms) [] h = absurd (omega arith)
masked-Weighted (true ∷ ms) (x ∷ xs) h = (inl refl, masked-Weighted ms xs (omega arith))
masked-Weighted (false ∷ ms) (x ∷ xs) h = (inr refl, masked-Weighted ms xs (omega arith))

masked-lt :
    (ms : List Bool) (xs : List ℕ) (n : ℕ)
    → 0 < n
    → All (λ x. x < n) xs
    → All (λ x. x < n) (masked ms xs)
masked-lt [] xs n pos h = tt
masked-lt (m ∷ ms) [] n pos h = tt
masked-lt (true ∷ ms) (x ∷ xs) n pos h = (h.0, masked-lt ms xs n pos h.1)
masked-lt (false ∷ ms) (x ∷ xs) n pos h = (pos, masked-lt ms xs n pos h.1)

length-masked :
    (ms : List Bool) (xs : List ℕ) → length xs ≡ length ms → length (masked ms xs) ≡ length ms
length-masked [] xs h = refl
length-masked (m ∷ ms) [] h = absurd (omega arith)
length-masked (m ∷ ms) (x ∷ xs) h = ap suc (length-masked ms xs (omega arith))

ones-Weighted : (ms : List Bool) → IsWeighted ms (ones ms) × All (λ x. x < 2 ^ 32) (ones ms)
ones-Weighted [] = (tt, tt)
ones-Weighted (true ∷ ms) = let (a, b) = ones-Weighted ms in ((inl refl, a), (omega arith, b))
ones-Weighted (false ∷ ms) = let (a, b) = ones-Weighted ms in ((inr refl, a), (omega arith, b))

ones-pos : (ms : List Bool) → is_zero ms ≡ false → 0 < sum (ones ms)
ones-pos [] h = absurd (cc h)
ones-pos (true ∷ ms) h = omega arith
ones-pos (false ∷ ms) h = omega (arith, ones-pos ms h)

ones-le : (ms : List Bool) → sum (ones ms) ≤ length ms
ones-le [] = omega arith
ones-le (true ∷ ms) = omega (arith, ones-le ms)
ones-le (false ∷ ms) = omega (arith, ones-le ms)

-- An element is no more than the sum.
elements-le : (xs : List ℕ) (n : ℕ) → sum xs ≤ n → All (λ x. x ≤ n) xs
elements-le [] n h = tt
elements-le (x ∷ xs) n h = (omega arith, elements-le xs n (omega arith))

-- 32-bit numbers of at most 8 nodes add up to a 64-bit number.
words-sum : (xs : List ℕ) → All (λ x. x < 2 ^ 32) xs → sum xs ≤ 4294967295 * length xs
words-sum [] h = omega arith
words-sum (x ∷ xs) h = omega (arith, h.0, words-sum xs h.1)

few_words : (xs : List ℕ) → All (λ x. x < 2 ^ 32) xs → length xs ≤ 8 → u64_sum 0 xs ≡ sum xs
few_words xs h k = rw (u64_sum-exact 0 xs (omega (arith, words-sum xs h))) (omega arith)

distributed :
    (ms : List Bool) (ws : List ℕ) (actual : ℕ)
    → IsWeighted ms ws
    → All (λ w. w < 2 ^ 32) ws
    → 0 < sum ws
    → actual < 2 ^ 32
    → sum (distribute_pair_account ms ws (sum ws) actual) ≡ actual
distributed ms ws actual weighted words pos small =
    distribute_pair_account-Exact ms ws actual weighted
      (All-zip (λ w. w ≤ sum ws) (λ w. w < 2 ^ 32) ws (elements-le ws (sum ws) (omega arith)) words)
      pos small

all-Nonzero :
    (ms : List Bool)
    → 0 < length ms
    → (is_zero (all_of ms) ≡ false) × (length (all_of ms) ≡ length ms)
all-Nonzero [] h = absurd (omega arith)
all-Nonzero (m ∷ ms) h = (refl, ap suc (length-all ms))
  where
    length-all : (ms : List Bool) → length (all_of ms) ≡ length ms
    length-all [] = refl
    length-all (m ∷ ms) = ap suc (length-all ms)

length-mask_and : (xs ys : List Bool) → length ys ≡ length xs → length (mask_and xs ys) ≡ length xs
length-mask_and [] ys h = refl
length-mask_and (x ∷ xs) [] h = absurd (omega arith)
length-mask_and (x ∷ xs) (y ∷ ys) h = ap suc (length-mask_and xs ys (omega arith))

length-mask_or : (xs ys : List Bool) → length ys ≡ length xs → length (mask_or xs ys) ≡ length xs
length-mask_or [] ys h = refl
length-mask_or (x ∷ xs) [] h = absurd (omega arith)
length-mask_or (x ∷ xs) (y ∷ ys) h = ap suc (length-mask_or xs ys (omega arith))

-- The nodes of a rebuilt account are never none.
rebuild_mask-Nonzero :
    (managed capacity resident : List Bool)
    → 0 < length managed
    → length capacity ≡ length managed
    → length resident ≡ length managed
    → (is_zero (rebuild_mask managed capacity resident) ≡ false)
      × (length (rebuild_mask managed capacity resident) ≡ length managed)
rebuild_mask-Nonzero managed capacity resident pos c r =
    let chosen = mask_and managed (mask_or capacity resident) in
    if_ind (λ ms. (is_zero ms ≡ false) × (length ms ≡ length managed)) (is_zero chosen)
      (λ _.
        if_ind (λ ms. (is_zero ms ≡ false) × (length ms ≡ length managed)) (is_zero managed)
          (λ _. all-Nonzero managed pos) (λ some_managed. (some_managed, refl)))
      (λ some_chosen. (
        some_chosen,
        length-mask_and managed (mask_or capacity resident)
            (omega (arith, length-mask_or capacity resident (omega arith))),
      ))

rebuild_pair_account-Exact :
    (managed capacity resident : List Bool) (nr_pages : List ℕ) (actual : ℕ)
    → 0 < length managed
    → length managed ≤ 8
    → length capacity ≡ length managed
    → length resident ≡ length managed
    → length nr_pages ≡ length managed
    → All (λ n. n < 2 ^ 32) nr_pages
    → actual < 2 ^ 32
    → sum (rebuild_pair_account managed capacity resident nr_pages actual) ≡ actual
unfolding rebuild_pair_account
rebuild_pair_account-Exact managed capacity resident nr_pages actual pos few c r n words small =
    let ms = rebuild_mask managed capacity resident in
    let (nonzero, same) = rebuild_mask-Nonzero managed capacity resident pos c r in
    let ws = masked ms nr_pages in
    let ws_words = masked-lt ms nr_pages (2 ^ 32) (omega arith) words in
    let aligned : length nr_pages ≡ length ms = omega arith in
    let ws_sum : u64_sum 0 ws ≡ sum ws =
      few_words ws ws_words (omega (arith, length-masked ms nr_pages aligned)) in
    let ones_sum : u64_sum 0 (ones ms) ≡ sum (ones ms) =
      rw (u64_sum-exact 0 (ones ms) (omega (arith, ones-le ms))) (omega arith) in
    rw (ws_sum, ones_sum)
      (if_ind (λ l. sum l ≡ actual) (sum ws == 0)
        (λ none_left.
          let (weighted, one_words) = ones-Weighted ms in
          distributed ms (ones ms) actual weighted one_words (ones-pos ms nonzero) small)
        (λ some_left.
          distributed ms ws actual (masked-Weighted ms nr_pages aligned) ws_words (ground arith)
            small))

-- After calibration the account of a remote node adds up to the pages that are there, whatever it was
-- before, when 1 to 8 local nodes are online and every count is a 32-bit number.
pub calibrate_pair_account-Exact :
    (managed capacity resident : List Bool) (nr_pages account : List ℕ) (actual : ℕ)
    → 0 < length managed
    → length managed ≤ 8
    → length capacity ≡ length managed
    → length resident ≡ length managed
    → length nr_pages ≡ length managed
    → length account ≡ length managed
    → All (λ n. n < 2 ^ 32) nr_pages
    → All (λ n. n < 2 ^ 32) account
    → actual < 2 ^ 32
    → sum (calibrate_pair_account managed capacity resident nr_pages account actual) ≡ actual
unfolding calibrate_pair_account
calibrate_pair_account-Exact managed capacity resident nr_pages account actual pos few c r n a words
      kept small =
    let total : u64_sum 0 account ≡ sum account = few_words account kept (omega arith) in
    rw total (
      if_ind (λ l. sum l ≡ actual) (sum account == actual) (λ same. ground arith)
        (λ differs.
          if_ind (λ l. sum l ≡ actual) (actual == 0)
            (λ none_left. ground (arith, zeros-sum account))
            (λ some_left.
              if_ind (λ l. sum l ≡ actual) (ltb 0 (sum account))
                (λ accounted.
                  distributed (account_mask account) account actual (account_mask-Weighted account)
                    kept (ltb→lt 0 (sum account) accounted) small)
                (λ _.
                  rebuild_pair_account-Exact managed capacity resident nr_pages actual pos few c r n
                    words small))))
