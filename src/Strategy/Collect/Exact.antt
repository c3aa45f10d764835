-- ===== src/Strategy/Collect/Exact.antt =====
-- `CollectPages4K` with a threshold and quota that fit the pages collects exactly the number asked
-- for, and leaves no better page behind.
use ubturbo.Prelude.{
  ℕ, ◌+◌, ◌-◌, ◌≤◌, ◌≡◌, Bool, true, false, ◌&&◌, List, [], ◌∷◌, arith, ltb, ◌==◌, All, length, ◌⊎◌,
  if_ind,
}
use ubturbo.Strategy.Actc.{ActcData, SelectionMode, beyond, eligible, count_pages}
use ubturbo.Strategy.Collect.{Collected, bump, should_take_4k, collect_4k_loop}
use ubturbo.Strategy.Collect.Picks.{Picks, rest, pick, leave}

-- A page that may be collected: eligible, and beyond the threshold or at it.
abbrev pub Taken : SelectionMode → Bool → ℕ → ActcData → Type 0
Taken mode from_local t p =
    (eligible from_local p ≡ true) × ((beyond mode p.freq t ≡ true) ⊎ (p.freq ≡ t))

-- No eligible page beyond the threshold is left.
abbrev pub NoneBeyond : SelectionMode → Bool → ℕ → List ActcData → Type 0
NoneBeyond mode from_local t ps =
    All (λ p. eligible from_local p ≡ true → beyond mode p.freq t ≡ false) ps

-- The eligible pages beyond the threshold, and those at it.
abbrev pub count_beyond : SelectionMode → Bool → ℕ → List ActcData → ℕ
count_beyond mode from_local t ps =
    count_pages (λ p. eligible from_local p && beyond mode p.freq t) ps

abbrev pub count_at : Bool → ℕ → List ActcData → ℕ
count_at from_local t ps = count_pages (λ p. eligible from_local p && (p.freq == t)) ps

module _ (mode : SelectionMode) (from_local : Bool) (nr t : ℕ) where
  pub collect_4k_loop-Picks :
      (ps : List ActcData) (i count tmp : ℕ) (sel : ℕ → ℕ)
      → let c = collect_4k_loop mode from_local nr t ps i count tmp sel in
        Picks (Taken mode from_local t) i ps c.addr c.pages
  unfolding collect_4k_loop
  collect_4k_loop-Picks [] i count tmp sel = rest []
  collect_4k_loop-Picks (p ∷ ps) i count tmp sel =
      let skip = leave p (collect_4k_loop-Picks ps (i + 1) count tmp sel) in
      if_ind Goal (ltb count nr)
        (λ _.
          if_ind Goal p.is_selected (λ _. skip)
            (λ free.
              if_ind Goal (should_take_4k mode p.freq t tmp)
                (λ take.
                  if_ind Goal (from_local && p.is_white_list_page) (λ _. skip)
                    (λ bare.
                      pick p (ground arith, ground arith)
                        (collect_4k_loop-Picks ps (i + 1) (count + 1) _ _)))
                (λ _. skip)))
        (λ _. rest (p ∷ ps))
    where
      Goal : Collected → Type 0
      Goal c = Picks (Taken mode from_local t) i (p ∷ ps) c.addr c.pages

  -- A count that fits the quota is met exactly.
  pub length-collect_4k_loop :
      (ps : List ActcData) (i count tmp : ℕ) (sel : ℕ → ℕ)
      → count + count_beyond mode from_local t ps + tmp ≡ nr
      → tmp ≤ count_at from_local t ps
      → count + length (collect_4k_loop mode from_local nr t ps i count tmp sel).addr ≡ nr
  unfolding collect_4k_loop
  length-collect_4k_loop [] i count tmp sel e h = omega arith
  length-collect_4k_loop (p ∷ ps) i count tmp sel e h = ground (
    arith,
    length-collect_4k_loop ps (i + 1) count tmp sel,
    length-collect_4k_loop ps (i + 1) (count + 1) tmp (bump sel p.freq),
    length-collect_4k_loop ps (i + 1) (count + 1) (tmp - 1) (bump sel p.freq),
  )

  NoneBeyond-zero :
      (ps : List ActcData) → count_beyond mode from_local t ps ≡ 0 → NoneBeyond mode from_local t ps
  NoneBeyond-zero [] e = tt
  NoneBeyond-zero (p ∷ ps) e = (λ free. ground arith, NoneBeyond-zero ps (ground arith))

  pub collect_4k_loop-NoneBeyond :
      (ps : List ActcData) (i count tmp : ℕ) (sel : ℕ → ℕ)
      → count + count_beyond mode from_local t ps + tmp ≡ nr
      → tmp ≤ count_at from_local t ps
      → NoneBeyond mode from_local t (collect_4k_loop mode from_local nr t ps i count tmp sel).pages
  unfolding collect_4k_loop
  collect_4k_loop-NoneBeyond [] i count tmp sel e h = tt
  collect_4k_loop-NoneBeyond (p ∷ ps) i count tmp sel e h = ground (
    arith,
    NoneBeyond-zero (p ∷ ps),
    collect_4k_loop-NoneBeyond ps (i + 1) count tmp sel,
    collect_4k_loop-NoneBeyond ps (i + 1) (count + 1) tmp (bump sel p.freq),
    collect_4k_loop-NoneBeyond ps (i + 1) (count + 1) (tmp - 1) (bump sel p.freq),
  )
