-- ===== src/Strategy/Select/Bounded.antt =====
-- `PairMigrationStrategy` never lists more pages than planned, and leaves nothing behind an error.
use ubturbo.Strategy.Collect.Bound.{length-collect_4k_loop-le, length-collect_vm_loop-le}
use ubturbo.Strategy.Collect.{collect_pages_4k, collect_pages_vm}
use ubturbo.Strategy.Select.Frame.{set_list_self, set_list_ne}
use ubturbo.Prelude.{
  none, ◌⊎◌, Option, arith, ◌≤◌, Bool, List, some, ℕ, ap, ◌≡◌, ◌≢◌, ltb, if_ind, length, ◌-◌, refl,
  ◌∙◌, leb, ◌==◌, min,
}
use ubturbo.Errno.{Status, done, fail}
use ubturbo.Strategy.Actc.{ActcData, SelectionMode}
use ubturbo.Strategy.Select.{
  process_type, vm_type, Params, Work, MigList, set_list, fill_list, build_select_k_mlist_addr,
  build_pair_mlist, after_build, collect_pages, PidType, ScanNode,
}

length-collect_pages-le :
    (pid_type : PidType) (mode : SelectionMode) (from_local : Bool) (nr : ℕ) (n : ScanNode)
    (ps : List ActcData)
    → length (collect_pages pid_type mode from_local nr n ps).addr ≤ nr
unfolding collect_pages collect_pages_4k collect_pages_vm
length-collect_pages-le process_type mode from_local nr n ps = omega (
  arith,
  length-collect_4k_loop-le mode from_local nr _ ps 0 0 _ n.selected_buckets (omega arith),
)
length-collect_pages-le vm_type mode from_local nr n ps = omega (
  arith,
  length-collect_vm_loop-le mode from_local nr _ ps 0 0 _ n.selected_buckets (omega arith),
)

-- What one call may write: the list of its own direction, with at most `k` pages.
pub record Writes (from to k : ℕ) (w w' : Work) : Type 0 where
  pub own : (w'.mlist from to).nr ≤ k
  pub others : (a b : ℕ) → (a ≢ from) ⊎ (b ≢ to) → w'.mlist a b ≡ w.mlist a b

set_list-Writes :
    (w : Work) (from to k : ℕ) (l : MigList) → l.nr ≤ k → Writes from to k w (set_list w from to l)
set_list-Writes w from to k l h = record {
  own = omega (arith, ap (λ (m : MigList). m.nr) (set_list_self w from to l));
  others = λ a b d. set_list_ne w from to l a b d;
}

fill_list-Writes :
    (p : Params) (w : Work) (from to : ℕ) (mode : SelectionMode) (nr : ℕ)
    (o : Option (List ActcData))
    → Writes from to nr w (fill_list p w from to mode nr o).1
unfolding fill_list
fill_list-Writes p w from to mode nr none = set_list-Writes w from to nr _ (omega arith)
fill_list-Writes p w from to mode nr (some ps) =
    if_ind (λ (r : Status × Work). Writes from to nr w r.1) (p.can_alloc from to)
      (λ _.
        let v = set_list-Writes w from to nr _ (
          length-collect_pages-le p.pid_type mode (ltb from p.nr_local_numa) nr (w.scan from) ps) in
        record { own = v.own; others = v.others })
      (λ _. set_list-Writes w from to nr _ (omega arith))

module _ (from to : ℕ) where
  Writes-trans :
      {k : ℕ} {u w x : Work}
      → Writes from to k w x
      → ((a b : ℕ) → (a ≢ from) ⊎ (b ≢ to) → w.mlist a b ≡ u.mlist a b)
      → Writes from to k u x
  Writes-trans r h = record { own = r.own; others = λ a b d. r.others a b d ∙ h a b d }

  Writes-mono : {k m : ℕ} {w x : Work} → k ≤ m → Writes from to k w x → Writes from to m w x
  Writes-mono h r = record { own = omega (arith, r.own); others = r.others }

  build_select-Writes :
      (p : Params) (w : Work) (mode : SelectionMode)
      → Writes from to (w.mlist from to).nr w (build_select_k_mlist_addr p w from to mode).1
  unfolding build_select_k_mlist_addr
  build_select-Writes p w mode =
      if_ind (λ (r : Status × Work). Writes from to (w.mlist from to).nr w r.1)
        (leb (w.scan from).actc_len (w.numa_offset from))
        (λ _. set_list-Writes w from to _ _ (omega arith))
        λ _.
          if_ind (λ (r : Status × Work). Writes from to (w.mlist from to).nr w r.1)
            (min (w.mlist from to).nr ((w.scan from).actc_len - w.numa_offset from) == 0)
            (λ _. set_list-Writes w from to _ _ (omega arith))
            (λ _.
              Writes-mono (omega arith)
                (fill_list-Writes p w from to mode _ (w.scan from).actc_data))

  after_build-Writes :
      {k : ℕ} {w : Work} (r : Status × Work)
      → Writes from to k w r.1
      → Writes from to k w (after_build from to r).1
  after_build-Writes (done, x) h = record { own = h.own; others = h.others }
  after_build-Writes (fail e, x) h = h

  -- A list that is short enough stays so when nothing is asked for.
  pub build_pair_mlist-Writes :
      (p : Params) (w : Work) (nr k : ℕ) (mode : SelectionMode)
      → nr ≤ k
      → (w.mlist from to).nr ≤ k
      → Writes from to k w (build_pair_mlist p w from to nr mode).1
  unfolding build_pair_mlist
  build_pair_mlist-Writes p w nr k mode h old =
      if_ind (λ (r : Status × Work). Writes from to k w r.1) (nr == 0)
        (λ _. record { own = old; others = λ a b d. refl })
        λ _. after_build-Writes (build_select_k_mlist_addr p asked from to mode) (
          Writes-mono (omega (arith, ap (λ (m : MigList). m.nr) (set_list_self w from to l)))
            (Writes-trans (build_select-Writes p asked mode) (set_list_ne w from to l)))
    where
      l : MigList
      l = record (w.mlist from to) { nr = nr }

      asked : Work
      asked = set_list w from to l
