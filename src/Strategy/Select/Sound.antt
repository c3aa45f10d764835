-- ===== src/Strategy/Select/Sound.antt =====
-- The migration lists of one process never share a page of a node, whatever the type of the process
-- and whichever allocation fails.
use native.Mathlib.Decide.{ℕ_discrete}
use mathlib.Core.Path.{subst}
use ubturbo.Prelude.{
  false, ◌⊎◌, true, none, List, ◌≡◌, ◌≢◌, [], Bool, some, ℕ, length, inl, inr, sym, refl, arith,
  ◌==◌, if_ind, ◌∙◌, ap, Bool-cases, update_self, update_ne,
}
use ubturbo.Strategy.Actc.{ActcData, SelectionMode, eligible}
use ubturbo.Strategy.Collect.{Collected, collect_pages_4k, collect_pages_vm}
use ubturbo.Strategy.Collect.Picks.{Picks, Picks-map, Picks-Rising, Rising}
use ubturbo.Strategy.Collect.Exact.{collect_4k_loop-Picks}
use ubturbo.Strategy.Collect.Vm.{collect_vm_loop-Picks}
use ubturbo.Strategy.Collect.Marks.{contains, marked_from, Picks-fresh, Picks-keeps}
use ubturbo.Strategy.Select.{
  Work, ScanNode, MigList, PidType, process_type, vm_type, collect_pages, store_collected, set_list,
}
use ubturbo.Strategy.Select.Consistent.{length-Picks}

abbrev pub Eligible : Bool → ActcData → Type 0
Eligible from_local p = eligible from_local p ≡ true

-- Either pass collects eligible pages only.
pub collect_pages-Picks :
    (pid_type : PidType) (mode : SelectionMode) (from_local : Bool) (nr : ℕ) (n : ScanNode)
    (ps : List ActcData)
    → let c = collect_pages pid_type mode from_local nr n ps in
      Picks (Eligible from_local) 0 ps c.addr c.pages
unfolding collect_pages collect_pages_4k collect_pages_vm
collect_pages-Picks process_type mode from_local nr n ps =
    Picks-map (λ p h. h.0) (collect_4k_loop-Picks mode from_local nr _ ps 0 0 _ n.selected_buckets)
collect_pages-Picks vm_type mode from_local nr n ps =
    Picks-map (λ p h. h.0) (collect_vm_loop-Picks mode from_local nr _ ps 0 0 _ n.selected_buckets)

-- The positions of a list, none for NULL, and the mark of a page of a node.
abbrev pub positions : MigList → List ℕ
positions l = elim l.addr [ none ↦ [] | some a ↦ a ]

abbrev pub marked : ScanNode → ℕ → Bool
marked n a = elim n.actc_data [ none ↦ false | some ps ↦ marked_from 0 ps a ]

-- Every listed page is marked in its node, is on one list of the node only, and lies within the
-- node's data.
pub record IsSound (w : Work) : Type 0 where
  pub data_len :
      (n : ℕ) (ps : List ActcData)
      → (w.scan n).actc_data ≡ some ps
      → length ps ≡ (w.scan n).actc_len
  pub listed_marked :
      (from to a : ℕ)
      → contains (positions (w.mlist from to)) a ≡ true
      → marked (w.scan from) a ≡ true
  pub disjoint :
      (from to to' a : ℕ)
      → to ≢ to'
      → contains (positions (w.mlist from to)) a ≡ true
      → contains (positions (w.mlist from to')) a ≡ false
  pub rising : (from to : ℕ) → Rising 0 (w.scan from).actc_len (positions (w.mlist from to))

-- Lists may be emptied, and the offsets do not matter.
module _ (w : Work) (m : ℕ → ℕ → MigList) (o : ℕ → ℕ) (v : IsSound w)
    (shrinks : (from to : ℕ)
      → (positions (m from to) ≡ []) ⊎ (positions (m from to) ≡ positions (w.mlist from to))) where
  Rising-shrinks : (from to : ℕ) → Rising 0 (w.scan from).actc_len (positions (m from to))
  Rising-shrinks from to = elim (shrinks from to) [
    | inl e ↦ subst (Rising 0 _) (sym e) tt
    | inr e ↦ subst (Rising 0 _) (sym e) (v.rising from to)
  ]

  pub shrink-IsSound : IsSound (record w { mlist = m; numa_offset = o })
  shrink-IsSound = record {
    data_len = v.data_len;
    listed_marked = λ from to a h. ground (arith, shrinks from to, v.listed_marked from to a);
    disjoint = λ from to to' a ne h.
        ground (arith, ne, shrinks from to, shrinks from to', v.disjoint from to to' a ne);
    rising = Rising-shrinks;
  }

set_list-shrinks :
    (w : Work) (from to : ℕ) (l : MigList)
    → (positions l ≡ []) ⊎ (positions l ≡ positions (w.mlist from to))
    → (a b : ℕ)
    → (positions ((set_list w from to l).mlist a b) ≡ [])
      ⊎ (positions ((set_list w from to l).mlist a b) ≡ positions (w.mlist a b))
set_list-shrinks w from to l h a b =
    if_ind
      (λ (r : ℕ → MigList). (positions (r b) ≡ []) ⊎ (positions (r b) ≡ positions (w.mlist a b)))
      (from == a)
      (λ e.
        if_ind (λ (r : MigList). (positions r ≡ []) ⊎ (positions r ≡ positions (w.mlist a b)))
          (to == b) (λ d. ground (arith, h)) (λ d. ground arith))
      (λ e. inr refl)

pub set_list-IsSound :
    (w : Work) (from to : ℕ) (l : MigList)
    → (positions l ≡ []) ⊎ (positions l ≡ positions (w.mlist from to))
    → IsSound w
    → IsSound (set_list w from to l)
set_list-IsSound w from to l h v =
    shrink-IsSound w (set_list w from to l).mlist w.numa_offset v (set_list-shrinks w from to l h)

-- A collected list of unmarked pages keeps the lists of its node apart.
module _ (w : Work) (from to : ℕ) (fl : Bool) (ps : List ActcData) (c : Collected) (v : IsSound w)
    (stored : (w.scan from).actc_data ≡ some ps) (q : Picks (Eligible fl) 0 ps c.addr c.pages) where
  not_selected : (p : ActcData) → Eligible fl p → p.is_selected ≡ false
  not_selected p h = ground arith

  after : Work
  after = store_collected w from to (w.scan from) c

  -- The lists of other pairs are as before; the new one was not marked before and is now.
  stored_list :
      (a b x : ℕ)
      → contains (positions (after.mlist a b)) x ≡ true
      → ((a ≡ from) × (b ≡ to) × (contains c.addr x ≡ true))
        ⊎ (((a ≢ from) ⊎ (b ≢ to)) × (contains (positions (w.mlist a b)) x ≡ true))
  unfolding after
  stored_list a b x h = ground arith

  old_marked : (x : ℕ) → marked (w.scan from) x ≡ marked_from 0 ps x
  old_marked x = rw stored

  new_marked : (x : ℕ) → marked (after.scan from) x ≡ marked_from 0 c.pages x
  unfolding after
  new_marked x = ap (λ n. marked n x) (update_self w.scan from _)

  other_marked : (a x : ℕ) → a ≢ from → marked (after.scan a) x ≡ marked (w.scan a) x
  unfolding after
  other_marked a x h = ap (λ n. marked n x) (update_ne w.scan from _ a h)

  fresh :
      (x : ℕ)
      → contains c.addr x ≡ true
      → (marked (w.scan from) x ≡ false) × (marked (after.scan from) x ≡ true)
  fresh x h = let f = Picks-fresh not_selected x q h in (old_marked x ∙ f.0, new_marked x ∙ f.1)

  marked_keeps : (a x : ℕ) → marked (w.scan a) x ≡ true → marked (after.scan a) x ≡ true
  marked_keeps a x h = elim (ℕ_discrete a from) [
    | yes e ↦
        subst (λ k. marked (after.scan k) x ≡ true) (sym e)
          (new_marked x
            ∙ Picks-keeps not_selected x q
                (sym (old_marked x) ∙ subst (λ k. marked (w.scan k) x ≡ true) e h))
    | no d ↦ other_marked a x d ∙ h
  ]

  listed_marked_after :
      (a b x : ℕ) → contains (positions (after.mlist a b)) x ≡ true → marked (after.scan a) x ≡ true
  listed_marked_after a b x h = elim (stored_list a b x h) [
    | inl (ea, eb, hx) ↦ subst (λ k. marked (after.scan k) x ≡ true) (sym ea) (fresh x hx).1
    | inr (d, hx) ↦ marked_keeps a x (v.listed_marked a b x hx)
  ]

  -- Two lists of a node that share a page are one.
  share_one :
      (a b b' x : ℕ)
      → b ≢ b'
      → contains (positions (after.mlist a b)) x ≡ true
      → contains (positions (after.mlist a b')) x ≡ true
      → ⊥
  share_one a b b' x ne h h' = elim (stored_list a b x h) [
    | inl (ea, eb, hx) ↦ elim (stored_list a b' x h') [
      | inl (ea', eb', hx') ↦ ne (eb ∙ sym eb')
      | inr (d', hx') ↦
          cc (v.listed_marked a b' x hx', (fresh x hx).0, ap (λ k. marked (w.scan k) x) ea)
    ]
    | inr (d, hx) ↦ elim (stored_list a b' x h') [
      | inl (ea', eb', hx') ↦
          cc (v.listed_marked a b x hx, (fresh x hx').0, ap (λ k. marked (w.scan k) x) ea')
      | inr (d', hx') ↦ cc (v.disjoint a b b' x ne hx)
    ]
  ]

  actc_len_after : (a : ℕ) → (w.scan a).actc_len ≡ (after.scan a).actc_len
  unfolding after
  actc_len_after a = ground arith

  listed-Rising : (a : ℕ) → from ≡ a → Rising 0 (w.scan a).actc_len c.addr
  listed-Rising a e =
      subst (λ k. Rising 0 (w.scan k).actc_len c.addr) e
        (Picks-Rising (omega (arith, v.data_len from ps stored)) q)

  after-Rising : (a b : ℕ) → Rising 0 (after.scan a).actc_len (positions (after.mlist a b))
  unfolding after
  after-Rising a b =
      if_ind (λ (l : ℕ → MigList). Rising 0 (after.scan a).actc_len (positions (l b))) (from == a)
        (λ e.
          if_ind (λ (l : MigList). Rising 0 (after.scan a).actc_len (positions l)) (to == b)
            (λ d.
              subst (λ n. Rising 0 n c.addr) (actc_len_after a) (listed-Rising a (ground arith)))
            (λ d.
              subst (λ n. Rising 0 n (positions (w.mlist from b)))
                (ap (λ k. (w.scan k).actc_len) (ground arith) ∙ actc_len_after a)
                (v.rising from b)))
        (λ e. subst (λ n. Rising 0 n (positions (w.mlist a b))) (actc_len_after a) (v.rising a b))

  data_len_after :
      (n : ℕ) (l : List ActcData)
      → (after.scan n).actc_data ≡ some l
      → length l ≡ (after.scan n).actc_len
  unfolding after
  data_len_after n l h =
      ground (
        arith,
        v.data_len n l,
        v.data_len from ps stored,
        length-Picks fl (Eligible fl) (λ p e. e) q,
      )

  pub store_collected-IsSound : IsSound (store_collected w from to (w.scan from) c)
  unfolding after
  store_collected-IsSound = record {
    data_len = data_len_after;
    listed_marked = listed_marked_after;
    disjoint = λ a b b' x ne h. elim (Bool-cases (contains (positions (after.mlist a b')) x)) [
      | inl h' ↦ absurd (share_one a b b' x ne h h')
      | inr h' ↦ h'
    ];
    rising = after-Rising;
  }
