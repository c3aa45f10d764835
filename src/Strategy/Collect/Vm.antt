-- ===== src/Strategy/Collect/Vm.antt =====
-- `CollectPagesVm` takes eligible pages only, and leaves none beyond the threshold as long as its
-- quotas fit the number asked for.
use ubturbo.Prelude.{◌&&◌, [], Bool, ℕ, arith, List, ◌∷◌, ◌||◌, ◌+◌, ltb, if_ind}
use ubturbo.Strategy.Actc.{ActcData, SelectionMode, beyond}
use ubturbo.Strategy.Collect.{Collected, collect_vm_loop, by_quota}
use ubturbo.Strategy.Collect.Picks.{Picks, rest, leave, pick}
use ubturbo.Strategy.Collect.Exact.{Taken}

module _ (mode : SelectionMode) (from_local : Bool) (nr t : ℕ) where
  pub collect_vm_loop-Picks :
      (ps : List ActcData) (i count : ℕ) (quota sel : ℕ → ℕ)
      → let c = collect_vm_loop mode from_local nr t ps i count quota sel in
        Picks (Taken mode from_local t) i ps c.addr c.pages
  unfolding collect_vm_loop
  collect_vm_loop-Picks [] i count quota sel = rest []
  collect_vm_loop-Picks (p ∷ ps) i count quota sel =
      if_ind Goal (ltb count nr)
        (λ _.
          if_ind Goal p.is_selected (λ _. leave p (collect_vm_loop-Picks ps (i + 1) count _ sel))
            (λ free.
              if_ind Goal (beyond mode p.freq t || by_quota mode t quota p)
                (λ take.
                  if_ind Goal (from_local && p.is_white_list_page)
                    (λ _. leave p (collect_vm_loop-Picks ps (i + 1) count _ sel))
                    (λ bare.
                      pick p (ground arith, ground arith)
                        (collect_vm_loop-Picks ps (i + 1) (count + 1) _ _)))
                (λ _. leave p (collect_vm_loop-Picks ps (i + 1) count _ sel))))
        (λ _. rest (p ∷ ps))
    where
      Goal : Collected → Type 0
      Goal c = Picks (Taken mode from_local t) i (p ∷ ps) c.addr c.pages
