-- ===== src/Strategy/Select/Exact.antt =====
-- `BuildSelectKMlistAddr` for a process: the list holds exactly the best pages that are left.
use ubturbo.Strategy.Select.Frame.{set_list_self}
use ubturbo.Strategy.Collect.{collect_pages_4k}
use ubturbo.Strategy.Collect.Buckets.{chosen, collect_4k_loop-selected}
use mathlib.Core.Path.{fun_ext, subst}
use ubturbo.Strategy.Threshold.Split.{find_threshold-SplitsAt}
use ubturbo.Strategy.Threshold.{find_threshold, visited}
use ubturbo.Strategy.Collect.Picks.{Picks}
use ubturbo.Strategy.Threshold.Histogram.{histogram, sum_if-ext, sum_if-histogram}
use ubturbo.Strategy.Threshold.Order.{sum_over}
use ubturbo.Prelude.{
  ◌∷◌, List, ◌≤◌, ◌+◌, ◌≡◌, ◌∙◌, ◌<◌, arith, Bool, ◌^◌, ℕ, ◌&&◌, true, [], refl, ◌==◌, All, length,
  some, ◌≢◌, ◌-◌, ltb, min, sym, if_ind, leb, update_ne, update_self, ap,
}
use ubturbo.Errno.{done, Status}
use ubturbo.Strategy.Actc.{ActcData, SelectionMode, eligible, count_pages, beyond}
use ubturbo.Strategy.Select.{
  ScanNode, collect_pages, process_type, remain_buckets, Params, Work, build_select_k_mlist_addr,
  store_collected,
}
use ubturbo.Strategy.Select.Consistent.{
  IsConsistent, count_pages-le, remain_buckets-eq-histogram, Picks-IsConsistent,
}
use ubturbo.Strategy.Collect.Exact.{
  Taken, NoneBeyond, count_beyond, count_at, length-collect_4k_loop, collect_4k_loop-Picks,
  collect_4k_loop-NoneBeyond,
}

-- A selection of `nr` pages of a node that no other selection betters: some threshold separates the
-- pages taken, which reach it, from the eligible pages left, none of which lies beyond it.
abbrev pub IsBest : SelectionMode → Bool → ℕ → List ActcData → List ℕ → List ActcData → Type 0
IsBest mode from_local nr ps addr ps' =
    (t : ℕ) × (length addr ≡ nr)
    × Picks (Taken mode from_local t) 0 ps addr ps'
    × NoneBeyond mode from_local t ps'

count_pages-true :
    (test : ActcData → Bool) (ps : List ActcData)
    → count_pages (λ p. test p && true) ps ≡ count_pages test ps
count_pages-true test [] = refl
count_pages-true test (p ∷ ps) = ground (arith, count_pages-true test ps)

module _ (mode : SelectionMode) (from_local : Bool) (nr : ℕ) (n : ScanNode) (ps : List ActcData)
    (v : IsConsistent from_local n ps) where
  remain-eq : remain_buckets n ≡ histogram (eligible from_local) ps
  remain-eq = fun_ext (remain_buckets-eq-histogram v)

  total-eligible : sum_over (remain_buckets n) (visited mode) ≡ count_pages (eligible from_local) ps
  total-eligible =
      sum_if-ext (λ _. true) (remain_buckets n) (histogram (eligible from_local) ps)
        (remain_buckets-eq-histogram v) (visited mode)
      ∙ sum_if-histogram mode (λ _. true) (eligible from_local) ps v.bytes
      ∙ count_pages-true (eligible from_local) ps

  remain-small : (is : List ℕ) → All (λ i. remain_buckets n i < 2 ^ 32) is
  remain-small [] = tt
  remain-small (i ∷ is) = (
    omega (
      arith,
      remain_buckets-eq-histogram v i,
      count_pages-le (λ p. eligible from_local p && (p.freq == i)) ps,
      v.whole,
      v.small,
    ),
    remain-small is,
  )

  -- The threshold fits the eligible pages.
  threshold_fits :
      0 < nr
      → nr ≤ count_pages (eligible from_local) ps
      → let (t, k) = find_threshold mode nr (remain_buckets n) in
        (0 + count_beyond mode from_local t ps + k ≡ nr) × (k ≤ count_at from_local t ps)
  threshold_fits pos enough =
      let (t, k) = find_threshold mode nr (remain_buckets n) in
      let split =
        find_threshold-SplitsAt mode nr (remain_buckets n) (remain-small (visited mode)) pos
          (omega (arith, total-eligible)) in
      let beyonds =
        sum_if-ext (λ i. beyond mode i t) (remain_buckets n) (histogram (eligible from_local) ps)
          (remain_buckets-eq-histogram v) (visited mode)
        ∙ sum_if-histogram mode (λ i. beyond mode i t) (eligible from_local) ps v.bytes in
      (omega (arith, split.0.0, beyonds), omega (arith, split.0.2, remain_buckets-eq-histogram v t))

  room : (g : ℕ) → n.selected_buckets g + length ps < 2 ^ 32
  room g = omega (
    arith,
    v.selected_counts g,
    v.small,
    v.whole,
    count_pages-le (λ p. chosen p && (p.freq == g)) ps,
  )

  collect_pages-IsBest :
      0 < nr
      → nr ≤ count_pages (eligible from_local) ps
      → let c = collect_pages process_type mode from_local nr n ps in
        IsBest mode from_local nr ps c.addr c.pages
        × IsConsistent from_local
            (record n { actc_data = some c.pages; selected_buckets = c.selected })
            c.pages
  unfolding collect_pages collect_pages_4k
  collect_pages-IsBest pos enough =
      let (t, k) = find_threshold mode nr (remain_buckets n) in
      let fits = threshold_fits pos enough in
      let picks = collect_4k_loop-Picks mode from_local nr t ps 0 0 k n.selected_buckets in
      (
        (
          t,
          omega (
            arith,
            length-collect_4k_loop mode from_local nr t ps 0 0 k n.selected_buckets fits.0 fits.1,
          ),
          picks,
          collect_4k_loop-NoneBeyond mode from_local nr t ps 0 0 k n.selected_buckets fits.0 fits.1,
        ),
        Picks-IsConsistent from_local (Taken mode from_local t) (λ p h. h.0) n _ v picks
            (λ f.
              collect_4k_loop-selected mode from_local nr t ps 0 0 k n.selected_buckets f v.bytes
                room),
      )

module _ (p : Params) (w : Work) (from to : ℕ) (mode : SelectionMode) (k : ℕ)
    (ps : List ActcData) where
  -- With data, memory and room the call goes all the way to the collection.
  build_select_k_mlist_addr-eq-store :
      p.pid_type ≡ process_type
      → p.can_alloc from to ≡ true
      → (w.scan from).actc_data ≡ some ps
      → k ≡ min (w.mlist from to).nr ((w.scan from).actc_len - w.numa_offset from)
      → 0 < k
      → build_select_k_mlist_addr p w from to mode ≡ (
        done,
        store_collected w from to
            (w.scan from)
            (collect_pages process_type mode (ltb from p.nr_local_numa) k (w.scan from) ps),
      )
  unfolding build_select_k_mlist_addr
  build_select_k_mlist_addr-eq-store is_process alloc stored e pos =
      if_ind (λ r. r ≡ goal) (leb (w.scan from).actc_len (w.numa_offset from))
        (λ h. absurd (ground arith))
        λ _.
          if_ind (λ r. r ≡ goal)
            (min (w.mlist from to).nr ((w.scan from).actc_len - w.numa_offset from) == 0)
            (λ h. absurd (ground arith)) λ _. rw (← e, stored, alloc, is_process)
    where
      goal : Status × Work
      goal = (
        done,
        store_collected w from to (w.scan from)
            (collect_pages process_type mode (ltb from p.nr_local_numa) k (w.scan from) ps),
      )

-- For a process, which is not a VM, on a node with scan data whose marks and buckets agree, and with
-- memory for the list: when the remaining length allows `k > 0` pages and as many are eligible,
-- `BuildSelectKMlistAddr` returns 0 and leaves a list of exactly `k` positions that are the best choice for the mode: every
-- page taken was eligible and reaches a threshold beyond which no eligible page is left. The marks
-- and buckets of the node stay consistent, and the other nodes keep their scan data.
pub build_select_k_mlist_addr-IsBest :
    (p : Params) (w : Work) (from to : ℕ) (mode : SelectionMode) (k : ℕ) (ps : List ActcData)
    → p.pid_type ≡ process_type
    → p.can_alloc from to ≡ true
    → IsConsistent (ltb from p.nr_local_numa) (w.scan from) ps
    → k ≡ min (w.mlist from to).nr ((w.scan from).actc_len - w.numa_offset from)
    → 0 < k
    → k ≤ count_pages (eligible (ltb from p.nr_local_numa)) ps
    → let (status, w') = build_select_k_mlist_addr p w from to mode in
      (ps' : List ActcData) × (addr : List ℕ) × (status ≡ done)
      × (w'.mlist from to ≡ record { nr = k; addr = some addr })
      × IsBest mode (ltb from p.nr_local_numa) k ps addr ps'
      × IsConsistent (ltb from p.nr_local_numa) (w'.scan from) ps'
      × ((n : ℕ) → n ≢ from → w'.scan n ≡ w.scan n)
unfolding build_select_k_mlist_addr
build_select_k_mlist_addr-IsBest p w from to mode k ps is_process alloc v e pos enough =
    let c = collect_pages process_type mode (ltb from p.nr_local_numa) k (w.scan from) ps in
    let best =
      collect_pages-IsBest mode (ltb from p.nr_local_numa) k (w.scan from) ps v pos enough in
    subst Goal
      (sym
        (build_select_k_mlist_addr-eq-store p w from to mode k ps is_process alloc v.stored e pos))
      (
        c.pages,
        c.addr,
        refl,
        set_list_self w from to _ ∙ ap (λ m. record { nr = m; addr = some c.addr }) best.0.1,
        best.0,
        subst (λ n. IsConsistent (ltb from p.nr_local_numa) n c.pages)
            (sym (update_self w.scan from _)) best.1,
        update_ne w.scan from _,
      )
  where
    Goal : Status × Work → Type 0
    Goal (status, w') =
        (ps' : List ActcData) × (addr : List ℕ) × (status ≡ done)
        × (w'.mlist from to ≡ record { nr = k; addr = some addr })
        × IsBest mode (ltb from p.nr_local_numa) k ps addr ps'
        × IsConsistent (ltb from p.nr_local_numa) (w'.scan from) ps'
        × ((n : ℕ) → n ≢ from → w'.scan n ≡ w.scan n)
