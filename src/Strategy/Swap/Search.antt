-- ===== src/Strategy/Swap/Search.antt =====
-- The search ends, at a number of pages that is worth swapping and with the next one not worth it.
use ubturbo.Strategy.Swap.{
  search_loop, cal_low_migrate_num_by_buckets, SwapParams, is_worth, swap_cap,
}
use ubturbo.Prelude.{
  some, ℕ, true, ◌⊎◌, arith, ◌/◌, false, zero, ◌≡◌, Bool, inr, ◌-◌, suc, ◌<◌, refl, ◌+◌, Option,
  inl, ◌≤◌, sym, ltb, if_ind, ◌==◌, ltb→lt,
}
use mathlib.Core.Path.{subst}

-- `n` is at most `high`, worth it unless 0, and the last that is unless `high`.
pub record IsEdge (worth : ℕ → Bool) (high n : ℕ) : Type 0 where
  pub capped : n ≤ high
  pub passes : (n ≡ 0) ⊎ (worth n ≡ true)
  pub stops : (n ≡ high) ⊎ (worth (n + 1) ≡ false)

module _ (worth : ℕ → Bool) (cap : ℕ) where
  abbrev Found : Option ℕ → Type 0
  Found r = (n : ℕ) × ((r ≡ some n) × IsEdge worth cap n)

  search_loop-Found :
      (rounds low high : ℕ)
      → high - low < rounds
      → low ≤ high
      → high ≤ cap
      → (low ≡ 0) ⊎ (worth low ≡ true)
      → (high ≡ cap) ⊎ (worth (high + 1) ≡ false)
      → Found (search_loop worth rounds low high)
  unfolding search_loop
  search_loop-Found zero low high f o c a b = absurd (omega (arith, f))
  search_loop-Found (suc r) low high f o c a b =
      let mid = low + (high - low + 1) / 2 in
      if_ind Found (ltb low high)
        (λ more.
          let above : low < mid = omega (arith, ltb→lt low high more) in
          let below : mid ≤ high = omega (arith, ltb→lt low high more) in
          if_ind Found (worth mid)
            (λ y. search_loop-Found r mid high (omega (arith, f, above, below)) below c (inr y) b)
            (λ n.
              let e : mid - 1 + 1 ≡ mid = omega (arith, above) in
              search_loop-Found r low (mid - 1) (omega (arith, f, above, below))
                (omega (arith, above)) (omega (arith, below, c)) a
                (inr (subst (λ (m : ℕ). worth m ≡ false) (sym e) n))))
        (λ ended.
          let e : low ≡ high = ground (arith, ended, o) in
          (
            low,
            (
              refl,
              record {
                capped = omega (arith, o, c);
                passes = a;
                stops = subst (λ (m : ℕ). (m ≡ cap) ⊎ (worth (m + 1) ≡ false)) (sym e) b;
              },
            ),
          ))

-- `CalLowMigrateNumByBuckets` returns, no more pages than its cap; the number is worth swapping unless
-- it is 0, and the next one is not unless it is the cap.
pub cal_low_migrate_num_by_buckets-IsEdge :
    (p : SwapParams) (migrate_num l1_count l2_count : ℕ)
    → (n : ℕ) × ((cal_low_migrate_num_by_buckets p migrate_num l1_count l2_count ≡ some n)
        × IsEdge (is_worth p) (swap_cap migrate_num l1_count l2_count) n)
unfolding cal_low_migrate_num_by_buckets
cal_low_migrate_num_by_buckets-IsEdge p migrate_num l1_count l2_count =
    let high = swap_cap migrate_num l1_count l2_count in
    if_ind (Found (is_worth p) high) (high == 0)
      (λ z. (
        0,
        (refl, record { capped = omega arith; passes = inl refl; stops = inl (ground (arith, z)) }),
      ))
      (λ _.
        search_loop-Found (is_worth p) high (high + 1) 0 high (omega arith) (omega arith)
          (omega arith) (inl refl) (inl refl))
