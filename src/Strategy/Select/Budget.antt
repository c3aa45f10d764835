-- ===== src/Strategy/Select/Budget.antt =====
-- `PairMigrationStrategy` against what was planned for each pair of nodes.
use ubturbo.Limits.{max_nodes, local_numa_num, remote_numa_num}
use mathlib.Core.Path.{subst}
use native.Mathlib.Decide.{ℕ_discrete}
use ubturbo.Prelude.{
  inr, ℕ, ◌+◌, ◌<◌, List, ◌≡◌, zero, arith, ◌∷◌, ◌≤◌, suc, none, refl, inl, ◌||◌, [], sym, if_ind,
  if◌then◌else◌, ◌==◌, ltb, All-append, All, ◌-◌, min,
}
use ubturbo.Errno.{Status, done, fail, Errno}
use ubturbo.Strategy.Actc.{select_top_k, select_bottom_k}
use ubturbo.Strategy.Select.{
  Params, Work, MigList, build_pair_mlist, pair_step, pair_loop, pair_migration_strategy,
  then_build, free_on_error, continue_if_done, swap_pages, pair_pages, pairs_from, remotes_of,
  UbBwRestrict, ub_bw_normal, ub_bw_swap_stop,
}
use ubturbo.Strategy.Select.Bounded.{Writes, build_pair_mlist-Writes}

-- Of `out` pages planned one way and `back` planned the other way, those that may go under a bandwidth
-- policy: all of them, or the excess alone where swaps are stopped.
abbrev allowed : UbBwRestrict → ℕ → ℕ → ℕ
allowed ub_bw_normal out back = out
allowed ub_bw_swap_stop out back = out - back

-- The pages that may go from node `a` to node `b`: none to or from a forbidden remote node, else what
-- the policy of the remote node allows of the planned pages.
abbrev pub budget : Params → ℕ → ℕ → ℕ
budget p a b =
    let remote = if ltb a p.nr_local_numa then b else a in
    if p.is_node_forbidden remote
    then 0
    else allowed (p.ub_bw_restrict remote) (p.nr_migrate_pages a b) (p.nr_migrate_pages b a)

pair_pages-allowed :
    (r : UbBwRestrict) (p : Params) (from to swap : ℕ)
    → swap ≡ elim r [
      | ub_bw_normal ↦ min (p.nr_migrate_pages from to) (p.nr_migrate_pages to from)
      | ub_bw_swap_stop ↦ 0
    ]
    → pair_pages p from to swap
      ≤ allowed r (p.nr_migrate_pages from to) (p.nr_migrate_pages to from)
pair_pages-allowed ub_bw_normal p from to swap h = ground (arith, h)
pair_pages-allowed ub_bw_swap_stop p from to swap h = ground (arith, h)

swap_pages-back :
    (r : UbBwRestrict) (out back : ℕ)
    → (elim r [ ub_bw_normal ↦ min out back | ub_bw_swap_stop ↦ 0 ])
      ≡ elim r [ ub_bw_normal ↦ min back out | ub_bw_swap_stop ↦ 0 ]
swap_pages-back ub_bw_normal out back = ground arith
swap_pages-back ub_bw_swap_stop out back = refl

-- A pair names a local node and a remote one.
abbrev pub IsPair : Params → ℕ × ℕ → Type 0
IsPair p (local, remote) = (local < p.nr_local_numa) × (p.nr_local_numa ≤ remote)

remotes_of-IsPair :
    (p : Params) (local remote n : ℕ)
    → local < p.nr_local_numa
    → p.nr_local_numa ≤ remote
    → All (IsPair p) (remotes_of local remote n)
remotes_of-IsPair p local remote zero h k = tt
remotes_of-IsPair p local remote (suc n) h k =
    ((h, k), remotes_of-IsPair p local (remote + 1) n h (omega arith))

pairs_from-IsPair :
    (p : Params) (local n : ℕ)
    → local + n ≤ p.nr_local_numa
    → All (IsPair p) (pairs_from p.nr_local_numa local n)
pairs_from-IsPair p local zero h = tt
pairs_from-IsPair p local (suc n) h =
    All-append (IsPair p) (remotes_of local p.nr_local_numa 18) _
      (remotes_of-IsPair p local p.nr_local_numa 18 (omega arith) (omega arith))
      (pairs_from-IsPair p (local + 1) n (omega arith))

module _ (p : Params) where
  abbrev pub Within : Work → Type 0
  Within w = (a b : ℕ) → (w.mlist a b).nr ≤ budget p a b

  Writes-Within :
      (from to k : ℕ) (w w' : Work)
      → Writes from to k w w'
      → k ≤ budget p from to
      → Within w
      → Within w'
  Writes-Within from to k w w' r h v a b = elim (ℕ_discrete a from) [
    | yes ea ↦ elim (ℕ_discrete b to) [
      | yes eb ↦
          subst (λ i. (w'.mlist i b).nr ≤ budget p i b) (sym ea)
            (subst (λ i. (w'.mlist from i).nr ≤ budget p from i) (sym eb) (omega (arith, r.own)))
      | no d ↦ subst (λ (l : MigList). l.nr ≤ budget p a b) (sym (r.others a b (inr d))) (v a b)
    ]
    | no d ↦ subst (λ (l : MigList). l.nr ≤ budget p a b) (sym (r.others a b (inl d))) (v a b)
  ]

  then_build-Within :
      (remote local k : ℕ) (r : Status × Work)
      → k ≤ budget p remote local
      → Within r.1
      → Within (then_build p remote local k select_top_k r).1
  then_build-Within remote local k (fail e, w) h v = v
  then_build-Within remote local k (done, w) h v =
      Writes-Within remote local (budget p remote local) w _
        (build_pair_mlist-Writes remote local p w k (budget p remote local) select_top_k h
          (v remote local))
        (omega arith) v

  free_on_error-Within : (r : Status × Work) → Within r.1 → Within (free_on_error r).1
  free_on_error-Within (done, w) v = v
  free_on_error-Within (fail e, w) v = λ a b. omega arith

  pair_step-Within : (x : ℕ × ℕ) (w : Work) → IsPair p x → Within w → Within (pair_step p x w).1
  unfolding pair_step
  pair_step-Within (local, remote) w is_pair v =
      if_ind (λ (r : Status × Work). Within r.1) (p.is_node_forbidden remote) (λ _. v)
        λ allowed_node.
          let out_ok : outward ≤ budget p local remote = ground (
            arith,
            is_pair.0,
            allowed_node,
            pair_pages-allowed (p.ub_bw_restrict remote) p local remote (swap_pages p local remote)
                refl,
          ) in
          let in_ok : inward ≤ budget p remote local = ground (
            arith,
            is_pair.1,
            allowed_node,
            pair_pages-allowed (p.ub_bw_restrict remote) p remote local (swap_pages p local remote)
                (swap_pages-back (p.ub_bw_restrict remote) (p.nr_migrate_pages local remote)
                  (p.nr_migrate_pages remote local)),
          ) in
          free_on_error-Within (then_build p remote local inward select_top_k first) (
            then_build-Within remote local inward first in_ok (
              Writes-Within local remote (budget p local remote) w first.1
                (build_pair_mlist-Writes local remote p w outward (budget p local remote)
                  select_bottom_k out_ok (v local remote))
                (omega arith) v))
    where
      outward : ℕ
      outward = pair_pages p local remote (swap_pages p local remote)

      inward : ℕ
      inward = pair_pages p remote local (swap_pages p local remote)

      first : Status × Work
      first = build_pair_mlist p w local remote outward select_bottom_k

  pair_loop-Within :
      (xs : List (ℕ × ℕ)) (w : Work) → All (IsPair p) xs → Within w → Within (pair_loop p xs w).1
  unfolding pair_loop
  pair_loop-Within [] w h v = v
  pair_loop-Within (x ∷ xs) w h v =
      go (pair_step p x w) (pair_step-Within x w h.0 v) (λ w'. pair_loop-Within xs w' h.1)
    where
      go :
          (r : Status × Work)
          → Within r.1
          → ((w' : Work) → Within w' → Within (pair_loop p xs w').1)
          → Within (continue_if_done (pair_loop p xs) r).1
      go (done, w') h ih = ih w' h
      go (fail e, w') h ih = h

-- From empty lists, and whatever it returns, `PairMigrationStrategy` lists from one node to another no
-- more than the pages planned that way, less those planned the other way where the policy of the
-- remote node stops swaps, and none to or from a forbidden remote node.
pub pair_migration_strategy-Within :
    (p : Params) (w : Work)
    → ((a b : ℕ) → (w.mlist a b).nr ≡ 0)
    → Within p (pair_migration_strategy p w).1
unfolding pair_migration_strategy
pair_migration_strategy-Within p w empty =
    if_ind (λ (r : Status × Work). Within p r.1)
      (p.nr_local_numa == 0
        || ltb local_numa_num p.nr_local_numa
        || ltb max_nodes (p.nr_local_numa + remote_numa_num))
      (λ _ a b. omega (arith, empty a b))
      λ _.
        pair_loop-Within p (pairs_from p.nr_local_numa 0 p.nr_local_numa) _
          (pairs_from-IsPair p 0 p.nr_local_numa (omega arith)) (λ a b. omega (arith, empty a b))

-- No list holds a page or a buffer.
abbrev pub IsEmpty : Work → Type 0
IsEmpty w = (a b : ℕ) → w.mlist a b ≡ record { nr = 0; addr = none }

abbrev EmptyOnError : Status × Work → Type 0
EmptyOnError (done, w) = Unit {0}
EmptyOnError (fail e, w) = IsEmpty w

pair_loop-EmptyOnError :
    (p : Params) (xs : List (ℕ × ℕ)) (w : Work) → EmptyOnError (pair_loop p xs w)
unfolding pair_loop pair_step
pair_loop-EmptyOnError p [] w = tt
pair_loop-EmptyOnError p ((local, remote) ∷ xs) w =
    if_ind (λ r. EmptyOnError (continue_if_done (pair_loop p xs) r)) (p.is_node_forbidden remote)
      (λ _. pair_loop-EmptyOnError p xs w) (λ _. go _ (pair_loop-EmptyOnError p xs))
  where
    go :
        (r : Status × Work)
        → ((w' : Work) → EmptyOnError (pair_loop p xs w'))
        → EmptyOnError (continue_if_done (pair_loop p xs) (free_on_error r))
    go (done, w') ih = ih w'
    go (fail e, w') ih = λ a b. refl

-- From empty lists, when `PairMigrationStrategy` returns an error no list holds a page or a buffer,
-- also when some pairs were filled before the error.
pub pair_migration_strategy-IsEmpty :
    (p : Params) (w w' : Work) (e : Errno)
    → IsEmpty w
    → pair_migration_strategy p w ≡ (fail e, w')
    → IsEmpty w'
unfolding pair_migration_strategy
pair_migration_strategy-IsEmpty p w w' e empty returned = subst EmptyOnError returned (
    if_ind EmptyOnError
      (p.nr_local_numa == 0
        || ltb local_numa_num p.nr_local_numa
        || ltb max_nodes (p.nr_local_numa + remote_numa_num))
      (λ _. empty) (λ _. pair_loop-EmptyOnError p (pairs_from p.nr_local_numa 0 p.nr_local_numa) _))
