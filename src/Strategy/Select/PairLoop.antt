-- ===== src/Strategy/Select/PairLoop.antt =====
-- `PairMigrationStrategy` over all pairs: the lists stay apart, errors leave nothing, and no list is
-- longer than what was planned for it.
use ubturbo.Limits.{max_nodes, local_numa_num, remote_numa_num}
use ubturbo.Prelude.{
  ◌-◌, refl, some, List, ◌+◌, ◌||◌, ◌≡◌, ◌∷◌, inr, [], none, ℕ, inl, Option, ltb, leb, if_ind, ◌==◌,
  min,
}
use ubturbo.Errno.{Status, done, fail}
use ubturbo.Strategy.Actc.{ActcData, SelectionMode, select_top_k, select_bottom_k}
use ubturbo.Strategy.Select.{
  Params, Work, fill_list, build_select_k_mlist_addr, build_pair_mlist, after_build, pair_step,
  pair_loop, pair_migration_strategy, then_build, free_on_error, continue_if_done, swap_pages,
  pair_pages,
}
use ubturbo.Strategy.Select.Sound.{
  IsSound, shrink-IsSound, set_list-IsSound, store_collected-IsSound, collect_pages-Picks,
}

fill_list-IsSound :
    (p : Params) (w : Work) (from to : ℕ) (mode : SelectionMode) (nr : ℕ)
    (o : Option (List ActcData))
    → (w.scan from).actc_data ≡ o
    → IsSound w
    → IsSound (fill_list p w from to mode nr o).1
unfolding fill_list
fill_list-IsSound p w from to mode nr none e v = set_list-IsSound w from to _ (inl refl) v
fill_list-IsSound p w from to mode nr (some ps) e v =
    if_ind (λ (r : Status × Work). IsSound r.1) (p.can_alloc from to)
      (λ _.
        store_collected-IsSound w from to (ltb from p.nr_local_numa) ps _ v e
          (collect_pages-Picks p.pid_type mode (ltb from p.nr_local_numa) nr (w.scan from) ps))
      (λ _. set_list-IsSound w from to _ (inl refl) v)

build_select-IsSound :
    (p : Params) (w : Work) (from to : ℕ) (mode : SelectionMode)
    → IsSound w
    → IsSound (build_select_k_mlist_addr p w from to mode).1
unfolding build_select_k_mlist_addr
build_select-IsSound p w from to mode v =
    if_ind (λ (r : Status × Work). IsSound r.1) (leb (w.scan from).actc_len (w.numa_offset from))
      (λ _. set_list-IsSound w from to _ (inr refl) v)
      λ _.
        if_ind (λ (r : Status × Work). IsSound r.1)
          (min (w.mlist from to).nr ((w.scan from).actc_len - w.numa_offset from) == 0)
          (λ _. set_list-IsSound w from to _ (inr refl) v)
          (λ _. fill_list-IsSound p w from to mode _ (w.scan from).actc_data refl v)

after_build-IsSound :
    (from to : ℕ) (r : Status × Work) → IsSound r.1 → IsSound (after_build from to r).1
after_build-IsSound from to (done, w) v = shrink-IsSound w w.mlist _ v (λ a b. inr refl)
after_build-IsSound from to (fail e, w) v = v

build_pair_mlist-IsSound :
    (p : Params) (w : Work) (from to nr : ℕ) (mode : SelectionMode)
    → IsSound w
    → IsSound (build_pair_mlist p w from to nr mode).1
unfolding build_pair_mlist
build_pair_mlist-IsSound p w from to nr mode v =
    if_ind (λ (r : Status × Work). IsSound r.1) (nr == 0) (λ _. v)
      λ _.
        after_build-IsSound from to _
          (build_select-IsSound p _ from to mode (set_list-IsSound w from to _ (inr refl) v))

then_build-IsSound :
    (p : Params) (from to nr : ℕ) (mode : SelectionMode) (r : Status × Work)
    → IsSound r.1
    → IsSound (then_build p from to nr mode r).1
then_build-IsSound p from to nr mode (done, w) v = build_pair_mlist-IsSound p w from to nr mode v
then_build-IsSound p from to nr mode (fail e, w) v = v

free_on_error-IsSound : (r : Status × Work) → IsSound r.1 → IsSound (free_on_error r).1
free_on_error-IsSound (done, w) v = v
free_on_error-IsSound (fail e, w) v = shrink-IsSound w _ _ v (λ a b. inl refl)

pair_step-IsSound : (p : Params) (x : ℕ × ℕ) (w : Work) → IsSound w → IsSound (pair_step p x w).1
unfolding pair_step
pair_step-IsSound p (local, remote) w v =
    if_ind (λ (r : Status × Work). IsSound r.1) (p.is_node_forbidden remote) (λ _. v)
      λ _. free_on_error-IsSound (then_build p remote local inward select_top_k first) (
        then_build-IsSound p remote local inward select_top_k first
          (build_pair_mlist-IsSound p w local remote outward select_bottom_k v))
  where
    outward : ℕ
    outward = pair_pages p local remote (swap_pages p local remote)

    inward : ℕ
    inward = pair_pages p remote local (swap_pages p local remote)

    first : Status × Work
    first = build_pair_mlist p w local remote outward select_bottom_k

pair_loop-IsSound :
    (p : Params) (xs : List (ℕ × ℕ)) (w : Work) → IsSound w → IsSound (pair_loop p xs w).1
unfolding pair_loop
pair_loop-IsSound p [] w v = v
pair_loop-IsSound p (x ∷ xs) w v =
    go (pair_step p x w) (pair_step-IsSound p x w v) (pair_loop-IsSound p xs)
  where
    go :
        (r : Status × Work)
        → IsSound r.1
        → ((w' : Work) → IsSound w' → IsSound (pair_loop p xs w').1)
        → IsSound (continue_if_done (pair_loop p xs) r).1
    go (done, w') h ih = ih w' h
    go (fail e, w') h ih = h

-- From sound lists, `PairMigrationStrategy` leaves sound lists whatever it returns: every listed page
-- is marked as selected in its node, no page of a node is on two lists, and the positions of a list
-- rise strictly and lie within the node's data.
pub pair_migration_strategy-IsSound :
    (p : Params) (w : Work) → IsSound w → IsSound (pair_migration_strategy p w).1
unfolding pair_migration_strategy
pair_migration_strategy-IsSound p w v =
    if_ind (λ (r : Status × Work). IsSound r.1)
      (p.nr_local_numa == 0
        || ltb local_numa_num p.nr_local_numa
        || ltb max_nodes (p.nr_local_numa + remote_numa_num))
      (λ _. v) λ _. pair_loop-IsSound p _ _ (shrink-IsSound w w.mlist _ v (λ a b. inr refl))
