-- ===== src/Tasks/Distinct.antt =====
-- No process has two tasks, in any table that the operations reach.
use ubturbo.Tasks.{
  MigrateTask, has_task, get_migrate_task, Tasks, init_task_list, release_all_tasks, take_idle,
  release_finished_tasks, put_migrate_task, allocate_migrate_task, at_index, is_idle, task_init_pid,
  release_migrate_task, TaskStatus, put_task, is_finished,
}
use ubturbo.Prelude.{
  refl, inl, sym, suc, List, ◌≡◌, ◌≢◌, Bool, ◌∷◌, [], ℕ, arith, inr, Option, zero, false, ◌⊎◌, ◌∙◌,
  ◌==◌, if_ind,
}
use native.Mathlib.Decide.{ℕ_discrete}
use mathlib.Core.Path.{subst}

abbrev pub IsFirst : MigrateTask → Tasks → Type 0
IsFirst t ts = (t.pid ≡ task_init_pid) ⊎ (has_task t.pid ts ≡ false)

-- A task of a process is the only one of that process.
abbrev pub IsDistinct : Tasks → Type 0
IsDistinct [] = Unit
IsDistinct (t ∷ ts) = IsFirst t ts × IsDistinct ts

-- A change of the table that brings no process a task.
abbrev BringsNone : Tasks → Tasks → Type 0
BringsNone ts ts' = (q : ℕ) → q ≢ task_init_pid → has_task q ts ≡ false → has_task q ts' ≡ false

IsFirst-keep : (t : MigrateTask) (ts ts' : Tasks) → BringsNone ts ts' → IsFirst t ts → IsFirst t ts'
IsFirst-keep t ts ts' b (inl e) = inl e
IsFirst-keep t ts ts' b (inr n) = elim (ℕ_discrete t.pid task_init_pid) [
  | yes e ↦ inl e
  | no ne ↦ inr (b t.pid ne n)
]

-- Taking an idle task for a process that has none.
take_idle-none :
    (pid q : ℕ) (ts : Tasks)
    → q ≢ pid
    → has_task q ts ≡ false
    → has_task q (take_idle pid ts).1 ≡ false
unfolding take_idle has_task
take_idle-none pid q [] n h = refl
take_idle-none pid q (t ∷ ts) n h = ground (arith, n, h, take_idle-none pid q ts n)

take_idle-IsDistinct :
    (pid : ℕ) (ts : Tasks)
    → has_task pid ts ≡ false
    → IsDistinct ts
    → IsDistinct (take_idle pid ts).1
unfolding take_idle has_task
take_idle-IsDistinct pid [] h d = tt
take_idle-IsDistinct pid (t ∷ ts) h d =
    if_ind (λ (r : Option ℕ × Tasks). IsDistinct r.1) (is_idle t.status)
      (λ _. (inr (ground (arith, h)), d.1))
      (λ _. (first d.0, take_idle-IsDistinct pid ts (ground (arith, h)) d.1))
  where
    first : IsFirst t ts → IsFirst t (take_idle pid ts).1
    first (inl e) = inl e
    first (inr n) = inr (take_idle-none pid t.pid ts (λ e. ground (arith, e, h)) n)

pub allocate_migrate_task-IsDistinct :
    (pid : ℕ) (ts : Tasks) → IsDistinct ts → IsDistinct (allocate_migrate_task pid ts).1
unfolding allocate_migrate_task
allocate_migrate_task-IsDistinct pid ts d =
    if_ind (λ (r : Option ℕ × Tasks). IsDistinct r.1) (has_task pid ts) (λ _. d)
      (λ h. take_idle-IsDistinct pid ts h d)

get_migrate_task-BringsNone : (pid : ℕ) (ts : Tasks) → BringsNone ts (get_migrate_task pid ts).1
unfolding get_migrate_task has_task
get_migrate_task-BringsNone pid [] q n h = refl
get_migrate_task-BringsNone pid (t ∷ ts) q n h =
    ground (arith, n, h, get_migrate_task-BringsNone pid ts q n)

get_migrate_task-IsDistinct :
    (pid : ℕ) (ts : Tasks) → IsDistinct ts → IsDistinct (get_migrate_task pid ts).1
unfolding get_migrate_task
get_migrate_task-IsDistinct pid [] d = tt
get_migrate_task-IsDistinct pid (t ∷ ts) d =
    if_ind (λ (r : Option ℕ × Tasks). IsDistinct r.1) (t.pid == pid)
      (λ _. if_ind (λ (r : Option ℕ × Tasks). IsDistinct r.1) t.status.occupied (λ _. d) (λ _. d))
      (λ _. (
        IsFirst-keep t ts (get_migrate_task pid ts).1 (get_migrate_task-BringsNone pid ts) d.0,
        get_migrate_task-IsDistinct pid ts d.1,
      ))

-- A change of one task that leaves its process or gives it up.
abbrev KeepsPid : (MigrateTask → MigrateTask) → Type 0
KeepsPid f = (t : MigrateTask) → ((f t).pid ≡ t.pid) ⊎ ((f t).pid ≡ task_init_pid)

at_index-BringsNone :
    (f : MigrateTask → MigrateTask)
    → KeepsPid f
    → (i : ℕ) (ts : Tasks) → BringsNone ts (at_index f i ts)
unfolding has_task
at_index-BringsNone f k i [] q n h = refl
at_index-BringsNone f k zero (t ∷ ts) q n h = ground (arith, k t, n, h)
at_index-BringsNone f k (suc i) (t ∷ ts) q n h =
    ground (arith, n, h, at_index-BringsNone f k i ts q n)

at_index-IsDistinct :
    (f : MigrateTask → MigrateTask)
    → KeepsPid f
    → (i : ℕ) (ts : Tasks) → IsDistinct ts
    → IsDistinct (at_index f i ts)
at_index-IsDistinct f k i [] d = tt
at_index-IsDistinct f k zero (t ∷ ts) d = (head (k t) d.0, d.1)
  where
    head : ((f t).pid ≡ t.pid) ⊎ ((f t).pid ≡ task_init_pid) → IsFirst t ts → IsFirst (f t) ts
    head (inr e) x = inl e
    head (inl e) (inl x) = inl (e ∙ x)
    head (inl e) (inr x) = inr (subst (λ (p : ℕ). has_task p ts ≡ false) (sym e) x)
at_index-IsDistinct f k (suc i) (t ∷ ts) d = (
  IsFirst-keep t ts (at_index f i ts) (at_index-BringsNone f k i ts) d.0,
  at_index-IsDistinct f k i ts d.1,
)

release_finished-BringsNone :
    (vpid : ℕ → Bool) (now : ℕ) (ts : Tasks) → BringsNone ts (release_finished_tasks vpid now ts).1
unfolding release_finished_tasks release_migrate_task has_task
release_finished-BringsNone vpid now [] q n h = refl
release_finished-BringsNone vpid now (t ∷ ts) q n h =
    if_ind (λ (r : List ℕ × Tasks). has_task q r.1 ≡ false) (is_finished vpid now t)
      (λ _. ground (arith, n, h, release_finished-BringsNone vpid now ts q n))
      (λ _. ground (arith, n, h, release_finished-BringsNone vpid now ts q n))

release_finished-IsDistinct :
    (vpid : ℕ → Bool) (now : ℕ) (ts : Tasks)
    → IsDistinct ts
    → IsDistinct (release_finished_tasks vpid now ts).1
unfolding release_finished_tasks release_migrate_task
release_finished-IsDistinct vpid now [] d = tt
release_finished-IsDistinct vpid now (t ∷ ts) d =
    if_ind (λ (r : List ℕ × Tasks). IsDistinct r.1) (is_finished vpid now t)
      (λ _. (inl refl, release_finished-IsDistinct vpid now ts d.1))
      (λ _. (
        IsFirst-keep t ts (release_finished_tasks vpid now ts).1
            (release_finished-BringsNone vpid now ts) d.0,
        release_finished-IsDistinct vpid now ts d.1,
      ))

release_all-IsDistinct : (ts : Tasks) → IsDistinct (release_all_tasks ts).1
unfolding release_all_tasks release_migrate_task
release_all-IsDistinct [] = tt
release_all-IsDistinct (t ∷ ts) = (inl refl, release_all-IsDistinct ts)

init_task_list-IsDistinct : (ts : Tasks) → IsDistinct (init_task_list ts)
unfolding init_task_list
init_task_list-IsDistinct [] = tt
init_task_list-IsDistinct (t ∷ ts) = (inl refl, init_task_list-IsDistinct ts)

-- One operation on the table.
pub data Step : Tasks → Tasks → Type 0 where
  allocated : {ts : Tasks} (pid : ℕ) → Step ts (allocate_migrate_task pid ts).1
  got : {ts : Tasks} (pid : ℕ) → Step ts (get_migrate_task pid ts).1
  put : {ts : Tasks} (i : ℕ) (s : TaskStatus) → Step ts (put_migrate_task i s ts)
  released : {ts : Tasks} (i : ℕ) → Step ts (at_index (λ t. (release_migrate_task t).1) i ts)
  released_finished :
      {ts : Tasks} (find_vpid : ℕ → Bool) (jiffies : ℕ)
      → Step ts (release_finished_tasks find_vpid jiffies ts).1
  released_all : {ts : Tasks} → Step ts (release_all_tasks ts).1

-- The tables that the operations reach after `init_task_list`.
pub data Reached : Tasks → Type 0 where
  initial : (ts : Tasks) → Reached (init_task_list ts)
  after : {ts ts' : Tasks} → Reached ts → Step ts ts' → Reached ts'

Step-IsDistinct : {ts ts' : Tasks} → Step ts ts' → IsDistinct ts → IsDistinct ts'
unfolding put_migrate_task release_migrate_task
Step-IsDistinct {ts = ts} (allocated pid) d = allocate_migrate_task-IsDistinct pid ts d
Step-IsDistinct {ts = ts} (got pid) d = get_migrate_task-IsDistinct pid ts d
Step-IsDistinct {ts = ts} (put i s) d = at_index-IsDistinct (put_task s) (λ t. inl refl) i ts d
Step-IsDistinct {ts = ts} (released i) d =
    at_index-IsDistinct (λ t. (release_migrate_task t).1) (λ t. inr refl) i ts d
Step-IsDistinct {ts = ts} (released_finished v now) d = release_finished-IsDistinct v now ts d
Step-IsDistinct {ts = ts} released_all d = release_all-IsDistinct ts

-- In every table that the operations reach from `init_task_list`, no process has two tasks.
pub Reached-IsDistinct : {ts : Tasks} → Reached ts → IsDistinct ts
Reached-IsDistinct (initial ts) = init_task_list-IsDistinct ts
Reached-IsDistinct (after r s) = Step-IsDistinct s (Reached-IsDistinct r)
