-- ===== src/Tasks/Owner.antt =====
-- A task belongs to the caller that got it until it is put back.
use mathlib.Core.Option.{map}
use mathlib.Core.Path.{subst}
use mathlib.Core.Path.{subst}
use ubturbo.Tasks.{
  MigrateTask, Tasks, get_migrate_task, at_index, put_migrate_task, TaskStatus, occupy,
}
use ubturbo.Prelude.{
  ◌≡◌, refl, [], some, ◌∷◌, suc, none, ℕ, false, ap, Option, arith, if_ind, ◌==◌, get_elem?,
}

-- What a successful `get_migrate_task` returns: a free task of the process, now occupied.
pub record IsGiven (pid : ℕ) (ts : Tasks) (i : ℕ) (ts' : Tasks) : Type 0 where
  pub task : MigrateTask
  pub there : get_elem? ts i ≡ some task
  pub of_process : task.pid ≡ pid
  pub was_free : task.status.occupied ≡ false
  pub only_this : ts' ≡ at_index occupy i ts

IsGiven-cons :
    (pid : ℕ) (t : MigrateTask) (ts ts' : Tasks) (i : ℕ)
    → IsGiven pid ts i ts'
    → IsGiven pid (t ∷ ts) (suc i) (t ∷ ts')
IsGiven-cons pid t ts ts' i g = record {
  task = g.task;
  there = g.there;
  of_process = g.of_process;
  was_free = g.was_free;
  only_this = ap (λ (xs : Tasks). t ∷ xs) g.only_this;
}

abbrev Given : ℕ → Tasks → Option ℕ × Tasks → Type 0
Given pid ts r = (i : ℕ) → r.0 ≡ some i → IsGiven pid ts i r.1

Given-later :
    (pid : ℕ) (t : MigrateTask) (ts : Tasks) (r : Option ℕ × Tasks)
    → Given pid ts r
    → Given pid (t ∷ ts) (map suc r.0, t ∷ r.1)
Given-later pid t ts (none, ts') g i e = absurd (cc)
Given-later pid t ts (some k, ts') g i e =
    let e' : suc k ≡ i = cc in
    subst (λ (i : ℕ). IsGiven pid (t ∷ ts) i (t ∷ ts')) e' (IsGiven-cons pid t ts ts' k (g k refl))

get_migrate_task-Given : (pid : ℕ) (ts : Tasks) → Given pid ts (get_migrate_task pid ts)
unfolding get_migrate_task
get_migrate_task-Given pid [] = λ i e. absurd (cc)
get_migrate_task-Given pid (t ∷ ts) =
    if_ind (Given pid (t ∷ ts)) (t.pid == pid)
      (λ e.
        if_ind (Given pid (t ∷ ts)) t.status.occupied (λ _ i x. absurd (cc))
          (λ n i x.
            let z : 0 ≡ i = cc in
            subst (λ (i : ℕ). IsGiven pid (t ∷ ts) i (occupy t ∷ ts)) z
              (record {
                task = t;
                there = refl;
                of_process = ground (arith, e);
                was_free = n;
                only_this = refl;
              })))
      (λ _. Given-later pid t ts (get_migrate_task pid ts) (get_migrate_task-Given pid ts))

pub get_migrate_task_again :
    (pid : ℕ) (ts : Tasks) → (get_migrate_task pid (get_migrate_task pid ts).1).0 ≡ none
unfolding get_migrate_task
get_migrate_task_again pid [] = refl
get_migrate_task_again pid (t ∷ ts) =
    let ih = get_migrate_task_again pid ts in
    if_ind (λ (r : Option ℕ × Tasks). (get_migrate_task pid r.1).0 ≡ none) (t.pid == pid)
      (λ e.
        if_ind (λ (r : Option ℕ × Tasks). (get_migrate_task pid r.1).0 ≡ none) t.status.occupied
          (λ o. ground (arith, e, o)) (λ o. ground (arith, e, o)))
      (λ n. ground (arith, n, ih))

pub get_migrate_task_put :
    (pid : ℕ) (ts : Tasks) (s : TaskStatus) (i : ℕ)
    → (get_migrate_task pid ts).0 ≡ some i
    → (get_migrate_task pid (put_migrate_task i s (get_migrate_task pid ts).1)).0 ≡ some i
unfolding get_migrate_task put_migrate_task
get_migrate_task_put pid [] s i h = absurd (cc)
get_migrate_task_put pid (t ∷ ts) s i h =
    if_ind Back (t.pid == pid)
      (λ e.
        if_ind Back t.status.occupied (λ o i x. absurd (cc))
          (λ o i x.
            let z : 0 ≡ i = cc in
            subst
              (λ (i : ℕ). (get_migrate_task pid (put_migrate_task i s (occupy t ∷ ts))).0 ≡ some i)
              z (ground (arith, e))))
      (λ n. later n (get_migrate_task pid ts) (λ k e. get_migrate_task_put pid ts s k e)) i h
  where
    Back : Option ℕ × Tasks → Type 0
    Back r = (i : ℕ) → r.0 ≡ some i → (get_migrate_task pid (put_migrate_task i s r.1)).0 ≡ some i

    later : (t.pid == pid) ≡ false → (r : Option ℕ × Tasks) → Back r → Back (map suc r.0, t ∷ r.1)
    later n (none, ts') b i e = absurd (cc)
    later n (some k, ts') b i e =
        let z : suc k ≡ i = cc in
        subst (λ (i : ℕ). (get_migrate_task pid (put_migrate_task i s (t ∷ ts'))).0 ≡ some i) z
          (ground (arith, n, b k refl))

-- What a caller has of the task that it got.
abbrev pub IsExclusive : ℕ → TaskStatus → Tasks → ℕ → Tasks → Type 0
IsExclusive pid s ts i ts' =
    IsGiven pid ts i ts'
    × (((get_migrate_task pid ts').0 ≡ none)
        × ((get_migrate_task pid (put_migrate_task i s ts')).0 ≡ some i))

-- When `get_migrate_task` returns a task, the task was free and of the process, and nothing changes
-- but that it is occupied; a second call for the process returns none; and after
-- `put_migrate_task` with any status the same task is returned again.
pub get_migrate_task-IsExclusive :
    (pid : ℕ) (s : TaskStatus) (ts : Tasks) (i : ℕ)
    → (get_migrate_task pid ts).0 ≡ some i
    → IsExclusive pid s ts i (get_migrate_task pid ts).1
get_migrate_task-IsExclusive pid s ts i h = (
  get_migrate_task-Given pid ts i h,
  (get_migrate_task_again pid ts, get_migrate_task_put pid ts s i h),
)
