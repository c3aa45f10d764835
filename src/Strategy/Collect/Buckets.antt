-- ===== src/Strategy/Collect/Buckets.antt =====
-- `selectedBuckets` follows the marks that `CollectPages4K` sets.
use ubturbo.Prelude.{ℕ, Bool, List, ◌+◌, length, ◌<◌, ◌^◌, ◌≡◌, ◌∷◌, arith, min, ◌-◌, [], refl}
use ubturbo.Strategy.Collect.{collect_4k_loop, bump}
use ubturbo.Strategy.Threshold.Histogram.{histogram, AreBytes}
use ubturbo.Strategy.Actc.{ActcData, SelectionMode}

abbrev pub chosen : ActcData → Bool
chosen p = p.is_selected

module _ (mode : SelectionMode) (from_local : Bool) (nr t : ℕ) where
  pub collect_4k_loop-selected :
      (ps : List ActcData) (i count tmp : ℕ) (sel : ℕ → ℕ) (f : ℕ)
      → AreBytes ps
      → ((g : ℕ) → sel g + length ps < 2 ^ 32)
      → let c = collect_4k_loop mode from_local nr t ps i count tmp sel in
        c.selected f + histogram chosen ps f ≡ sel f + histogram chosen c.pages f
  unfolding collect_4k_loop
  collect_4k_loop-selected [] i count tmp sel f bytes w = refl
  collect_4k_loop-selected (p ∷ ps) i count tmp sel f bytes w = ground (
    arith,
    w (min p.freq 255),
    w f,
    collect_4k_loop-selected ps (i + 1) count tmp sel f bytes.1 (λ g. omega (arith, w g)),
    collect_4k_loop-selected ps (i + 1) (count + 1) tmp (bump sel p.freq) f bytes.1
        (λ g. ground (arith, w g, w (min p.freq 255))),
    collect_4k_loop-selected ps (i + 1) (count + 1) (tmp - 1) (bump sel p.freq) f bytes.1
        (λ g. ground (arith, w g, w (min p.freq 255))),
  )
