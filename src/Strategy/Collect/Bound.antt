-- ===== src/Strategy/Collect/Bound.antt =====
-- Neither pass collects more than it was asked for.
use ubturbo.Prelude.{arith, ◌≤◌, ◌&&◌, ◌-◌, Bool, [], List, ℕ, ◌||◌, ◌∷◌, ◌+◌, ltb, if_ind, length}
use ubturbo.Strategy.Actc.{ActcData, SelectionMode, beyond}
use ubturbo.Strategy.Collect.{
  collect_4k_loop, collect_vm_loop, bump, Collected, by_quota, quotas_left,
}

module _ (mode : SelectionMode) (from_local : Bool) (nr t : ℕ) where
  pub length-collect_4k_loop-le :
      (ps : List ActcData) (i count tmp : ℕ) (sel : ℕ → ℕ)
      → count ≤ nr
      → count + length (collect_4k_loop mode from_local nr t ps i count tmp sel).addr ≤ nr
  unfolding collect_4k_loop
  length-collect_4k_loop-le [] i count tmp sel h = omega arith
  length-collect_4k_loop-le (p ∷ ps) i count tmp sel h = ground (
    arith,
    length-collect_4k_loop-le ps (i + 1) count tmp sel,
    length-collect_4k_loop-le ps (i + 1) (count + 1) tmp (bump sel p.freq),
    length-collect_4k_loop-le ps (i + 1) (count + 1) (tmp - 1) (bump sel p.freq),
  )

  pub length-collect_vm_loop-le :
      (ps : List ActcData) (i count : ℕ) (quota sel : ℕ → ℕ)
      → count ≤ nr
      → count + length (collect_vm_loop mode from_local nr t ps i count quota sel).addr ≤ nr
  unfolding collect_vm_loop
  length-collect_vm_loop-le [] i count quota sel h = omega arith
  length-collect_vm_loop-le (p ∷ ps) i count quota sel h =
      if_ind Goal (ltb count nr)
        (λ more.
          if_ind Goal p.is_selected (λ _. length-collect_vm_loop-le ps (i + 1) count _ sel h)
            (λ free.
              if_ind Goal (beyond mode p.freq t || by_quota mode t quota p)
                (λ take.
                  if_ind Goal (from_local && p.is_white_list_page)
                    (λ _. length-collect_vm_loop-le ps (i + 1) count _ sel h)
                    (λ bare.
                      let ih =
                        length-collect_vm_loop-le ps (i + 1) (count + 1)
                          (quotas_left mode t quota p) (bump sel p.freq) (ground arith) in
                      omega (arith, ih)))
                (λ _. length-collect_vm_loop-le ps (i + 1) count _ sel h)))
        (λ _. omega arith)
    where
      Goal : Collected → Type 0
      Goal c = count + length c.addr ≤ nr
