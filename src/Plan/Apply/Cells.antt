-- ===== src/Plan/Apply/Cells.antt =====
-- The two cells of a matrix of pages that `ApplyPairPlansForState` writes for a plan.
use ubturbo.Plan.Apply.{write_pages}
use ubturbo.Prelude.{
  ◌≤◌, ◌<◌, ◌≢◌, ◌⊎◌, ◌&&◌, ℕ, u32_max, ◌≡◌, arith, ◌+◌, Bool, ◌==◌, true, false, if◌then◌else◌,
  update,
}

pub add_eq : (a b c d : ℕ) → a ≡ c → b ≡ d → a + b ≡ c + d
add_eq a b c d h h' = omega arith

pub write_both :
    (m : ℕ → ℕ → ℕ) (l r x y from to : ℕ)
    → m l r ≡ 0
    → m r l ≡ 0
    → l < r
    → write_pages (write_pages m l r x) r l y from to
      ≡ m from to
        + ((if (from == l) && (to == r) then x else 0)
            + (if (from == r) && (to == l) then y else 0))
write_both m l r x y from to out back lt = ground (arith, out, back, lt)

pub still_unseen :
    (seen : ℕ → ℕ → Bool) (l i a b : ℕ)
    → update seen l (update (seen l) i true) a b ≡ false
    → (seen a b ≡ false) × ((a ≢ l) ⊎ (b ≢ i))
still_unseen seen l i a b h = ground (arith, h)

pub written_elsewhere :
    (k l i a b x y : ℕ)
    → l < k
    → a < k
    → (a ≢ l) ⊎ (b ≢ i)
    → ((if (a == l) && (k + b == k + i) then x else 0)
          + (if (a == k + i) && (k + b == l) then y else 0)
        ≡ 0)
      × ((if (k + b == l) && (a == k + i) then x else 0)
            + (if (k + b == k + i) && (a == l) then y else 0)
          ≡ 0)
written_elsewhere k l i a b x y lt lt' other = ground (arith, lt, lt', other)

pub fits_word :
    (m : ℕ → ℕ → ℕ) (l r x y from to : ℕ)
    → x ≤ u32_max
    → y ≤ u32_max
    → m from to ≤ u32_max
    → write_pages (write_pages m l r x) r l y from to ≤ u32_max
fits_word m l r x y from to h h' w = ground (arith, h, h', w)
