-- ===== src/Pair/Tests.antt =====
-- Shares at concrete inputs: seven pages for weights 1, 2 and 0 and 7.
use ubturbo.Pair.Allocate.Conserved.{allocate_remote_pair_request-Conserved}
use ubturbo.Pair.Allocate.{allocate_remote_pair_request}
use ubturbo.Pair.Account.Exact.{calibrate_pair_account-Exact}
use ubturbo.Pair.Requests.Bounds.{
  preserve_pair_accounts-Bounded, build_effective_remote_pages-Bounded,
}
use ubturbo.Pair.Account.{calibrate_pair_account, distribute_pair_account, add_remainder}
use ubturbo.Pair.Requests.{preserve_pair_accounts, build_effective_remote_pages}
use ubturbo.Pair.Distribute.Shares.{IsShare, distribute_pair_request_pages-IsShared}
use ubturbo.Pair.Distribute.Floors.{sum, All2}
use ubturbo.Pair.Distribute.{distribute_pair_request_pages, add_left}
use ubturbo.Prelude.{refl, arith, ◌∷◌, ◌≡◌, [], ◌≤◌, true, false, ◌+◌}

seven_shared : distribute_pair_request_pages 7 (1 ∷ 2 ∷ 0 ∷ 7 ∷ []) ≡ 1 ∷ 2 ∷ 0 ∷ 4 ∷ []
unfolding distribute_pair_request_pages add_left
seven_shared = refl

distribute_pair_request_pages-IsShared_example :
    (sum (distribute_pair_request_pages 7 (1 ∷ 2 ∷ 0 ∷ 7 ∷ [])) ≡ 7)
    × All2
        (IsShare 7 10)
        (1 ∷ 2 ∷ 0 ∷ 7 ∷ [])
        (distribute_pair_request_pages 7 (1 ∷ 2 ∷ 0 ∷ 7 ∷ []))
distribute_pair_request_pages-IsShared_example =
    distribute_pair_request_pages-IsShared 7 (1 ∷ 2 ∷ 0 ∷ 7 ∷ []) (omega arith) (omega arith)

-- Two nodes requested 5 and 6 pages, of which they hold 2 and 9; 10 pages are managed.
build_effective_remote_pages-Bounded_example :
    (sum (build_effective_remote_pages (2 ∷ 9 ∷ []) (5 ∷ 6 ∷ []) 10) ≡ 10)
    × All2 (λ r e. e ≤ r) (5 ∷ 6 ∷ []) (build_effective_remote_pages (2 ∷ 9 ∷ []) (5 ∷ 6 ∷ []) 10)
    × All2 (λ b e. b ≤ e) (2 ∷ 6 ∷ []) (build_effective_remote_pages (2 ∷ 9 ∷ []) (5 ∷ 6 ∷ []) 10)
build_effective_remote_pages-Bounded_example =
    build_effective_remote_pages-Bounded (2 ∷ 9 ∷ []) (5 ∷ 6 ∷ []) 10 refl (omega arith)

preserve_pair_accounts-Bounded_example :
    (sum (preserve_pair_accounts (true ∷ false ∷ true ∷ []) (4 ∷ 5 ∷ 6 ∷ []) 7) ≡ 7)
    × All2
        (λ a x. x ≤ a)
        (4 ∷ 0 ∷ 6 ∷ [])
        (preserve_pair_accounts (true ∷ false ∷ true ∷ []) (4 ∷ 5 ∷ 6 ∷ []) 7)
preserve_pair_accounts-Bounded_example =
    preserve_pair_accounts-Bounded (true ∷ false ∷ true ∷ []) (4 ∷ 5 ∷ 6 ∷ []) 7 refl (omega arith)

-- An account of 3 pages where 8 are found.
eight_found :
    calibrate_pair_account
      (true ∷ true ∷ [])
      (true ∷ true ∷ [])
      (true ∷ true ∷ [])
      (50 ∷ 60 ∷ [])
      (1 ∷ 2 ∷ [])
      8
    ≡ 3 ∷ 5 ∷ []
unfolding calibrate_pair_account distribute_pair_account add_remainder
eight_found = refl

calibrate_pair_account-Exact_example :
    sum (
      calibrate_pair_account
        (true ∷ true ∷ [])
        (true ∷ true ∷ [])
        (true ∷ true ∷ [])
        (50 ∷ 60 ∷ [])
        (1 ∷ 2 ∷ [])
        8)
    ≡ 8
calibrate_pair_account-Exact_example =
    calibrate_pair_account-Exact (true ∷ true ∷ []) (true ∷ true ∷ []) (true ∷ true ∷ [])
      (50 ∷ 60 ∷ []) (1 ∷ 2 ∷ []) 8 (omega arith) (omega arith) refl refl refl refl
      (omega arith, (omega arith, tt)) (omega arith, (omega arith, tt)) (omega arith)

-- Two active nodes with 5 and 3 pages left, and 6 more asked for than the 4 of before.
allocate_remote_pair_request-Conserved_example :
    (sum
          (allocate_remote_pair_request
            (true ∷ true ∷ [])
            (9 ∷ 9 ∷ [])
            10
            (4 ∷ 0 ∷ [])
            (5 ∷ 3 ∷ [])).0
        + sum
            (allocate_remote_pair_request
              (true ∷ true ∷ [])
              (9 ∷ 9 ∷ [])
              10
              (4 ∷ 0 ∷ [])
              (5 ∷ 3 ∷ [])).1
      ≡ 12)
    × (sum
          (allocate_remote_pair_request
            (true ∷ true ∷ [])
            (9 ∷ 9 ∷ [])
            10
            (4 ∷ 0 ∷ [])
            (5 ∷ 3 ∷ [])).0
        ≡ 10)
allocate_remote_pair_request-Conserved_example =
    allocate_remote_pair_request-Conserved (true ∷ true ∷ []) (9 ∷ 9 ∷ []) (4 ∷ 0 ∷ []) (5 ∷ 3 ∷ [])
      10 (refl, refl, refl) (omega arith)
