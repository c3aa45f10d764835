-- ===== src/Plan/Apply/Outcome.antt =====
-- What `ApplyPairPlansForState` writes to the processes.
use ubturbo.Limits.{max_pair_target_count, local_numa_num, max_4k_processes_cnt}
use mathlib.Core.Path.{subst}
use ubturbo.Result.{Ensures, ok, Ensures-bind, Ensures-elim}
use ubturbo.Plan.Types.{PairPlan}
use ubturbo.Plan.Apply.{
  MatrixStage, stages_of, PlannedProcess, stage_plans, apply_pair_plans_for_state, copy_stages,
  is_staged,
}
use ubturbo.Plan.Apply.Stages.{
  Pages, planned, without, SwapWord, AllHold, stage_plans-AllHold, AllHold-ext,
}
use ubturbo.Prelude.{
  ◌≤◌, ◌||◌, ℕ, if_ind, ltb, u32_max, ◌≡◌, List, not, arith, inr, refl, ◌⊎◌, [], inl, ◌∷◌, ◌+◌,
  Bool, ◌==◌, All, length, is_negative, true, false, if◌then◌else◌, sym,
}

-- A process that migrates now: a normal scan, no group policy, and its state.
abbrev pub IsChosen : PlannedProcess → Type 0
IsChosen p = (p.is_normal_scan ≡ true) × (p.group_enabled ≡ false) × (p.is_migrating ≡ true)

-- The processes afterwards, in their places: of one that migrates the page counts alone change, to
-- those that stand for its pid, each a word; any other stays; and what stands for a pid goes to the
-- first that migrates, and all of it to some.
abbrev pub AllApplied : Pages → List PlannedProcess → List PlannedProcess → Type 0
AllApplied d [] [] = (pid from to : ℕ) → d pid from to ≡ 0
AllApplied d [] (q ∷ qs) = ⊥
AllApplied d (p ∷ ps) [] = ⊥
AllApplied d (p ∷ ps) (q ∷ qs) =
    (IsChosen p
      × (q ≡ record p { nr_migrate_pages = q.nr_migrate_pages })
      × ((from to : ℕ)
          → (q.nr_migrate_pages from to ≡ d p.pid from to) × (q.nr_migrate_pages from to ≤ u32_max))
      × AllApplied (without p.pid d) ps qs)
    ⊎ (¬ (IsChosen p) × (q ≡ p) × AllApplied d ps qs)

pids : List MatrixStage → List ℕ
pids [] = []
pids (s ∷ ss) = s.pid ∷ pids ss

module _ (k : ℕ) where
  stages_of-AllHold :
      (ps : List PlannedProcess) (d : Pages)
      → ((pid from to : ℕ) → d pid from to ≡ 0)
      → AllHold k d (pids (stages_of ps)) (stages_of ps)
  unfolding stages_of pids
  stages_of-AllHold [] d h = h
  stages_of-AllHold (p ∷ ps) d h =
      if_ind (λ ss. AllHold k d (pids ss) ss) (is_staged p)
        (λ _. (
          record {
            own_pid = refl;
            exact = λ from to. sym (h p.pid from to);
            word = λ from to. omega arith;
            unseen = λ l i lt new. (refl, refl);
          },
          stages_of-AllHold ps (without p.pid d) (λ q from to. ground (arith, h q from to)),
        ))
        (λ _. stages_of-AllHold ps d h)

  copy_stages-nil : (ps : List PlannedProcess) → copy_stages ps [] ≡ ps
  unfolding copy_stages
  copy_stages-nil [] = refl
  copy_stages-nil (p ∷ ps) = refl

  copy_stages-AllApplied :
      (ps : List PlannedProcess) (d : Pages) (ss : List MatrixStage)
      → AllHold k d (pids (stages_of ps)) ss
      → AllApplied d ps (copy_stages ps ss)
  unfolding copy_stages stages_of pids
  copy_stages-AllApplied [] d [] h = h
  copy_stages-AllApplied [] d (s ∷ ss) h = absurd h
  copy_stages-AllApplied (p ∷ ps) d ss h =
      go (is_staged p) refl ss (λ d' ss'. copy_stages-AllApplied ps d' ss') h
    where
      stage : MatrixStage
      stage = record { pid = p.pid; pair_seen = λ _ _. false; pages = λ _ _. 0 }

      go :
          (y : Bool)
          → is_staged p ≡ y
          → (ss : List MatrixStage)
          → ((d' : Pages) (ss' : List MatrixStage)
              → AllHold k d' (pids (stages_of ps)) ss'
              → AllApplied d' ps (copy_stages ps ss'))
          → AllHold k d (pids (if y then stage ∷ stages_of ps else stages_of ps)) ss
          → AllApplied d (p ∷ ps) (copy_stages (p ∷ ps) ss)
      go true e [] ih h = absurd h
      go true e (s ∷ ss) ih h =
          subst
            (λ y. AllApplied d (p ∷ ps) (
              if y
              then record p { nr_migrate_pages = s.pages } ∷ copy_stages ps ss
              else p ∷ copy_stages ps (s ∷ ss)))
            (sym e)
            (inl (
              ground (arith, e),
              refl,
              (λ from to. (h.0.exact from to, h.0.word from to)),
              ih (without p.pid d) ss h.1,
            ))
      go false e [] ih h = inr (
        (λ chosen. ground (arith, e, chosen)),
        refl,
        subst (AllApplied d ps) (copy_stages-nil ps) (ih d [] h),
      )
      go false e (s ∷ ss) ih h =
          subst
            (λ y. AllApplied d (p ∷ ps) (
              if y
              then record p { nr_migrate_pages = s.pages } ∷ copy_stages ps ss
              else p ∷ copy_stages ps (s ∷ ss)))
            (sym e) (inr ((λ chosen. ground (arith, e, chosen)), refl, ih d (s ∷ ss) h))

-- When `ApplyPairPlansForState` returns 0 for plans whose swaps are words, each process that migrates,
-- with a normal scan and no group policy, gets as page counts exactly the pages of the plans of its
-- pid, demotions and swaps one way and promotions and swaps the other, each a word; of processes with
-- one pid the first gets them; no plan is left over, and nothing else of any process changes.
pub apply_pair_plans_for_state-AllApplied :
    (can_alloc : Bool) (nr_local_numa : ℕ) (processes : List PlannedProcess) (plans : List PairPlan)
    (processes' : List PlannedProcess)
    → All SwapWord plans
    → apply_pair_plans_for_state can_alloc nr_local_numa processes plans ≡ ok processes'
    → AllApplied (planned plans) processes processes'
unfolding apply_pair_plans_for_state
apply_pair_plans_for_state-AllApplied can_alloc k processes plans processes' w h =
    let none_and_planned : Pages = λ pid from to. 0 + planned plans pid from to in
    let Goal = Ensures (AllApplied (planned plans) processes) in
    Ensures-elim (AllApplied (planned plans) processes)
      (apply_pair_plans_for_state can_alloc k processes plans) processes'
      (if_ind Goal (ltb max_pair_target_count (length plans)) (λ _. tt)
        λ _.
          if_ind Goal (not can_alloc) (λ _. tt)
            λ _.
              if_ind Goal (is_negative k || (k == 0) || ltb local_numa_num k) (λ _. tt)
                λ _.
                  if_ind Goal (ltb max_4k_processes_cnt (length (stages_of processes))) (λ _. tt)
                    λ _.
                      Ensures-bind (AllHold k none_and_planned (pids (stages_of processes)))
                        (AllApplied (planned plans) processes)
                        (stage_plans k plans (stages_of processes)) _
                        (stage_plans-AllHold k plans (λ _ _ _. 0) _ (stages_of processes) w
                          (stages_of-AllHold k processes (λ _ _ _. 0) (λ pid from to. refl)))
                        λ ss held. copy_stages-AllApplied k processes (planned plans) ss (
                          AllHold-ext k none_and_planned (planned plans) _ ss
                            (λ pid from to. omega arith) held))
      h
