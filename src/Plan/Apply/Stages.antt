-- ===== src/Plan/Apply/Stages.antt =====
-- What the stages of `ApplyPairPlansForState` hold after some plans: the pages of these plans.
use mathlib.Core.Path.{subst}
use ubturbo.Result.{Ensures, Ensures-bind, Ensures-mono}
use ubturbo.Plan.Types.{PairPlan}
use ubturbo.Plan.Apply.{
  MatrixStage, stage_plan, is_stage_invalid, stage_plans, stage_on, is_overflow,
}
use ubturbo.Plan.Apply.Cells.{write_both, still_unseen, written_elsewhere, fits_word, add_eq}
use ubturbo.Prelude.{
  ◌≤◌, ◌<◌, ◌&&◌, ℕ, if_ind, u32_max, ◌≡◌, List, arith, [], ◌∷◌, ◌+◌, ◌==◌, All, false,
  if◌then◌else◌, sym, ◌⊎◌, ◌≢◌, ◌∙◌,
}

-- The page counts of each process, by its pid.
abbrev pub Pages : Type 0
Pages = ℕ → ℕ → ℕ → ℕ

-- A plan moves pages out of its local node and back, and swaps in both directions.
abbrev pub pages_of : PairPlan → Pages
pages_of p pid from to =
    if pid == p.pid
    then (if (from == p.local_nid) && (to == p.remote_nid)
        then p.demote_pages + p.swap_pages
        else 0)
      + (if (from == p.remote_nid) && (to == p.local_nid)
          then p.promote_pages + p.swap_pages
          else 0)
    else 0

-- All plans together.
abbrev pub planned : List PairPlan → Pages
planned [] pid from to = 0
planned (p ∷ ps) pid from to = pages_of p pid from to + planned ps pid from to

abbrev pub without : ℕ → Pages → Pages
without pid d q from to = if q == pid then 0 else d q from to

-- `swapPages` is a `uint32_t`.
abbrev pub SwapWord : PairPlan → Type 0
SwapWord p = p.swap_pages ≤ u32_max

abbrev and_plan : Pages → PairPlan → Pages
and_plan d p pid from to = d pid from to + pages_of p pid from to

pages_of_own :
    (p : PairPlan) (pid from to : ℕ)
    → pid ≡ p.pid
    → pages_of p pid from to
      ≡ (if (from == p.local_nid) && (to == p.remote_nid) then p.demote_pages + p.swap_pages else 0)
        + (if (from == p.remote_nid) && (to == p.local_nid)
            then p.promote_pages + p.swap_pages
            else 0)
pages_of_own p pid from to same = ground (arith, same)

module _ (k : ℕ) where
  -- A stage of `pid` that holds these pages, and none for a pair that it has not seen.
  pub record Holds (pid : ℕ) (m : ℕ → ℕ → ℕ) (s : MatrixStage) : Type 0 where
    pub own_pid : s.pid ≡ pid
    pub exact : (from to : ℕ) → s.pages from to ≡ m from to
    pub word : (from to : ℕ) → s.pages from to ≤ u32_max
    pub unseen :
        (l i : ℕ)
        → l < k
        → s.pair_seen l i ≡ false
        → (s.pages l (k + i) ≡ 0) × (s.pages (k + i) l ≡ 0)

  valid_plan :
      (p : PairPlan) (s : MatrixStage)
      → is_stage_invalid k p s ≡ false
      → (p.local_nid < k)
        × (p.remote_nid ≡ k + p.remote_index)
        × (s.pair_seen p.local_nid p.remote_index ≡ false)
  unfolding is_stage_invalid
  valid_plan p s h = ground (arith, h)

  out_of :
      (p : PairPlan) (s : MatrixStage)
      → p.remote_nid ≡ k + p.remote_index
      → s.pages p.local_nid (k + p.remote_index) ≡ 0
      → s.pages p.local_nid p.remote_nid ≡ 0
  out_of p s e h = subst (λ r. s.pages p.local_nid r ≡ 0) (sym e) h

  back_of :
      (p : PairPlan) (s : MatrixStage)
      → p.remote_nid ≡ k + p.remote_index
      → s.pages (k + p.remote_index) p.local_nid ≡ 0
      → s.pages p.remote_nid p.local_nid ≡ 0
  back_of p s e h = subst (λ r. s.pages r p.local_nid ≡ 0) (sym e) h

  elsewhere :
      (p : PairPlan) (x y l i : ℕ)
      → p.remote_nid ≡ k + p.remote_index
      → p.local_nid < k
      → l < k
      → (l ≢ p.local_nid) ⊎ (i ≢ p.remote_index)
      → ((if (l == p.local_nid) && (k + i == p.remote_nid) then x else 0)
            + (if (l == p.remote_nid) && (k + i == p.local_nid) then y else 0)
          ≡ 0)
        × ((if (k + i == p.local_nid) && (l == p.remote_nid) then x else 0)
              + (if (k + i == p.remote_nid) && (l == p.local_nid) then y else 0)
            ≡ 0)
  elsewhere p x y l i e below lt other =
      subst
        (λ r.
          ((if (l == p.local_nid) && (k + i == r) then x else 0)
              + (if (l == r) && (k + i == p.local_nid) then y else 0)
            ≡ 0)
          × ((if (k + i == p.local_nid) && (l == r) then x else 0)
                + (if (k + i == r) && (l == p.local_nid) then y else 0)
              ≡ 0))
        (sym e) (written_elsewhere k p.local_nid p.remote_index l i x y below lt other)

  stage_plan-Holds :
      (p : PairPlan) (pid : ℕ) (d : Pages) (s : MatrixStage)
      → SwapWord p
      → pid ≡ p.pid
      → Holds pid (d pid) s
      → Ensures (Holds pid (and_plan d p pid)) (stage_plan k p s)
  unfolding stage_plan
  stage_plan-Holds p pid d s w same h =
      let Goal = Ensures (Holds pid (and_plan d p pid)) in
      if_ind Goal (is_stage_invalid k p s) (λ _. tt)
        λ valid.
          if_ind Goal (is_overflow p) (λ _. tt)
            λ fits.
              let (below, remote, new) = valid_plan p s valid in
              let x = p.demote_pages + p.swap_pages in
              let y = p.promote_pages + p.swap_pages in
              let (out, back) = h.unseen p.local_nid p.remote_index below new in
              let both = λ (from to : ℕ).
                write_both s.pages p.local_nid p.remote_nid x y from to (out_of p s remote out)
                  (back_of p s remote back) (omega arith) in
              record {
                own_pid = h.own_pid;
                exact = λ from to.
                    both from to
                    ∙ add_eq _ _ _ _ (h.exact from to) (sym (pages_of_own p pid from to same));
                word = λ from to.
                    fits_word s.pages p.local_nid p.remote_nid x y from to (ground (arith, fits, w))
                      (ground (arith, fits, w)) (h.word from to);
                unseen = λ l i lt unset.
                    let (old, other) =
                      still_unseen s.pair_seen p.local_nid p.remote_index l i unset in
                    let (there, again) = h.unseen l i lt old in
                    let (none_out, none_back) = elsewhere p x y l i remote below lt other in
                    (
                      omega (arith, both l (k + i), there, none_out),
                      omega (arith, both (k + i) l, again, none_back),
                    );
              }

  -- The stages of these processes hold these pages, a pid's in its first stage, and no page is for
  -- another process.
  abbrev pub AllHold : Pages → List ℕ → List MatrixStage → Type 0
  AllHold d [] [] = (pid from to : ℕ) → d pid from to ≡ 0
  AllHold d [] (s ∷ ss) = ⊥
  AllHold d (pid ∷ pids) [] = ⊥
  AllHold d (pid ∷ pids) (s ∷ ss) = Holds pid (d pid) s × AllHold (without pid d) pids ss

  pub AllHold-ext :
      (d d' : Pages) (pids : List ℕ) (ss : List MatrixStage)
      → ((pid from to : ℕ) → d pid from to ≡ d' pid from to)
      → AllHold d pids ss
      → AllHold d' pids ss
  AllHold-ext d d' pids ss e h = subst (λ f. AllHold f pids ss) (λ j pid from to. e pid from to j) h

  stage_on-AllHold :
      (p : PairPlan) (d : Pages) (pids : List ℕ) (ss : List MatrixStage)
      → SwapWord p
      → AllHold d pids ss
      → Ensures (AllHold (and_plan d p) pids) (stage_on k p ss)
  unfolding stage_on
  stage_on-AllHold p d pids [] w h = tt
  stage_on-AllHold p d [] (s ∷ ss) w h = absurd h
  stage_on-AllHold p d (pid ∷ pids) (s ∷ ss) w h =
      let ih = stage_on-AllHold p (without pid d) pids ss w h.1 in
      if_ind (Ensures (AllHold (and_plan d p) (pid ∷ pids))) (s.pid == p.pid)
        (λ y.
          Ensures-bind (Holds pid (and_plan d p pid)) (AllHold (and_plan d p) (pid ∷ pids))
            (stage_plan k p s) _ (stage_plan-Holds p pid d s w (ground (arith, y, h.0.own_pid)) h.0)
            λ s' held. (
              held,
              AllHold-ext (without pid d) (without pid (and_plan d p)) pids ss
                  (λ q from to. ground (arith, y, h.0.own_pid)) h.1,
            ))
        (λ n.
          Ensures-bind (AllHold (and_plan (without pid d) p) pids)
            (AllHold (and_plan d p) (pid ∷ pids)) (stage_on k p ss) _ ih
            λ ss' held. (
              record {
                own_pid = h.0.own_pid;
                exact = λ from to. ground (arith, n, h.0.own_pid, h.0.exact from to);
                word = h.0.word;
                unseen = h.0.unseen;
              },
              AllHold-ext (and_plan (without pid d) p) (without pid (and_plan d p)) pids ss'
                  (λ q from to. ground (arith, n, h.0.own_pid)) held,
            ))

  pub stage_plans-AllHold :
      (ps : List PairPlan) (d : Pages) (pids : List ℕ) (ss : List MatrixStage)
      → All SwapWord ps
      → AllHold d pids ss
      → Ensures
          (AllHold (λ pid from to. d pid from to + planned ps pid from to) pids)
          (stage_plans k ps ss)
  unfolding stage_plans
  stage_plans-AllHold [] d pids ss w h =
      AllHold-ext d (λ pid from to. d pid from to + 0) pids ss (λ pid from to. omega arith) h
  stage_plans-AllHold (p ∷ ps) d pids ss w h =
      let All_planned =
        AllHold (λ pid from to. d pid from to + planned (p ∷ ps) pid from to) pids in
      Ensures-bind (AllHold (and_plan d p) pids) All_planned (stage_on k p ss) (stage_plans k ps)
        (stage_on-AllHold p d pids ss w.0 h)
        λ ss' held.
          Ensures-mono
            (AllHold (λ pid from to. and_plan d p pid from to + planned ps pid from to) pids)
            All_planned (stage_plans k ps ss')
            (stage_plans-AllHold ps (and_plan d p) pids ss' w.1 held)
            (λ ss'' all. AllHold-ext _ _ pids ss'' (λ pid from to. omega arith) all)
