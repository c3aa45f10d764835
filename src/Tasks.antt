-- ===== src/Tasks.antt =====
-- The table of migration tasks, plugins/smap/src/tiering/ham_tasks_mgr.c. A function that the source
-- runs under its lock is one step. A pointer to a task is its index; whether a process is there and
-- the time are arguments. Of the status only the bits that have a name.
pub mod Distinct
pub mod Owner
pub mod Release
mod Tests
use ubturbo.Errno.{Status, fail, einval, done}
use ubturbo.Prelude.{
  ◌&&◌, Option, zero, Bool, none, suc, not, [], false, some, List, ℕ, ◌++◌, ◌||◌, true, ◌∷◌, ◌==◌,
  if◌then◌else◌, leb, u32_max,
}
use mathlib.Core.Option
use mathlib.Core.List.{◌++◌}

-- A page with the bits `HPM_migrate` and `HPM_rollback` of its flags.
pub record PageMap : Type 0 where
  pub dst_folio : Option ℕ
  pub migrate : Bool
  pub rollback : Bool

-- `HAM_TASK_IDLE` is no bit.
pub record TaskStatus : Type 0 where
  pub inited : Bool
  pub migrated : Bool
  pub stopped : Bool
  pub allow_migr : Bool
  pub occupied : Bool

abbrev pub task_idle : TaskStatus
task_idle = record {
  inited = false;
  migrated = false;
  stopped = false;
  allow_migr = false;
  occupied = false;
}

abbrev pub is_idle : TaskStatus → Bool
is_idle s = not (s.inited || s.migrated || s.stopped || s.allow_migr || s.occupied)

-- `ram_maps` holds the `hpms` of `numa_cnt` blocks, none for NULL; `numa_cnt` is the length.
pub record MigrateTask : Type 0 where
  pub status : TaskStatus
  pub is_finish : Bool
  pub finish_times : ℕ
  pub pid : ℕ
  pub ram_maps : Option (List (Option (List PageMap)))

-- -1.
abbrev pub task_init_pid : ℕ
task_init_pid = u32_max

abbrev pub ham_max_task : ℕ
ham_max_task = 32

abbrev pub reset_migrate_task : MigrateTask → MigrateTask
reset_migrate_task t = record t {
  is_finish = false;
  pid = task_init_pid;
  ram_maps = none;
  status = task_idle;
}

-- The folios that go back: of a page that is neither migrated nor rolled back.
abbrev pub putback : PageMap → List ℕ
putback p = if p.migrate || p.rollback then [] else elim p.dst_folio [ none ↦ [] | some f ↦ f ∷ [] ]

unfoldable pub putback_pages : List PageMap → List ℕ
putback_pages [] = []
putback_pages (p ∷ ps) = putback p ++ putback_pages ps

unfoldable pub putback_blocks : List (Option (List PageMap)) → List ℕ
unfolding putback_pages
putback_blocks [] = []
putback_blocks (none ∷ bs) = putback_blocks bs
putback_blocks (some ps ∷ bs) = putback_pages ps ++ putback_blocks bs

unfoldable pub putback_maps : Option (List (Option (List PageMap))) → List ℕ
unfolding putback_blocks
putback_maps none = []
putback_maps (some bs) = putback_blocks bs

-- `release_migrate_task_inner`: the folios that it gives back, and the task.
unfoldable pub release_migrate_task : MigrateTask → List ℕ × MigrateTask
unfolding putback_maps
release_migrate_task t = (putback_maps t.ram_maps, reset_migrate_task t)

abbrev pub occupy : MigrateTask → MigrateTask
occupy t = record t { status = record t.status { occupied = true } }

abbrev pub Tasks : Type 0
Tasks = List MigrateTask

unfoldable pub get_migrate_task : ℕ → Tasks → Option ℕ × Tasks
get_migrate_task pid [] = (none, [])
get_migrate_task pid (t ∷ ts) =
    let (r, ts') = get_migrate_task pid ts in
    if t.pid == pid
    then (if t.status.occupied then (none, t ∷ ts) else (some 0, occupy t ∷ ts))
    else (Option.map suc r, t ∷ ts')

-- The bits of `a` with those of `b`.
abbrev pub with_bits : TaskStatus → TaskStatus → TaskStatus
with_bits a b = record {
  inited = a.inited || b.inited;
  migrated = a.migrated || b.migrated;
  stopped = a.stopped || b.stopped;
  allow_migr = a.allow_migr || b.allow_migr;
  occupied = a.occupied || b.occupied;
}

abbrev pub put_task : TaskStatus → MigrateTask → MigrateTask
put_task s t = record t { status = record (with_bits t.status s) { occupied = false } }

-- A change of the task at an index.
abbrev pub at_index : (MigrateTask → MigrateTask) → ℕ → Tasks → Tasks
at_index f i [] = []
at_index f zero (t ∷ ts) = f t ∷ ts
at_index f (suc i) (t ∷ ts) = t ∷ at_index f i ts

unfoldable pub put_migrate_task : ℕ → TaskStatus → Tasks → Tasks
put_migrate_task i s ts = at_index (put_task s) i ts

unfoldable pub has_task : ℕ → Tasks → Bool
has_task pid [] = false
has_task pid (t ∷ ts) = (t.pid == pid) || has_task pid ts

-- The first idle task goes to the process.
unfoldable pub take_idle : ℕ → Tasks → Option ℕ × Tasks
take_idle pid [] = (none, [])
take_idle pid (t ∷ ts) =
    let (r, ts') = take_idle pid ts in
    if is_idle t.status
    then (
      some 0,
      record t { pid = pid; status = record task_idle { occupied = true }; is_finish = false } ∷ ts,
    )
    else (Option.map suc r, t ∷ ts')

unfoldable pub allocate_migrate_task : ℕ → Tasks → Option ℕ × Tasks
unfolding has_task take_idle
allocate_migrate_task pid ts = if has_task pid ts then (none, ts) else take_idle pid ts

-- A task is released when its process is gone or its time is up.
abbrev pub is_finished : (ℕ → Bool) → ℕ → MigrateTask → Bool
is_finished find_vpid jiffies t =
    not (is_idle t.status)
    && ((not (t.pid == task_init_pid) && not (find_vpid t.pid))
        || (t.is_finish && leb t.finish_times jiffies))

unfoldable pub release_finished_tasks : (ℕ → Bool) → ℕ → Tasks → List ℕ × Tasks
unfolding release_migrate_task
release_finished_tasks find_vpid jiffies [] = ([], [])
release_finished_tasks find_vpid jiffies (t ∷ ts) =
    let (fs, ts') = release_finished_tasks find_vpid jiffies ts in
    let (f, t') = release_migrate_task t in
    if is_finished find_vpid jiffies t then (f ++ fs, t' ∷ ts') else (fs, t ∷ ts')

unfoldable pub release_all_tasks : Tasks → List ℕ × Tasks
unfolding release_migrate_task
release_all_tasks [] = ([], [])
release_all_tasks (t ∷ ts) =
    let (fs, ts') = release_all_tasks ts in
    let (f, t') = release_migrate_task t in (f ++ fs, t' ∷ ts')

-- `finish_times` keeps what it had.
unfoldable pub init_task_list : Tasks → Tasks
init_task_list [] = []
init_task_list (t ∷ ts) = reset_migrate_task t ∷ init_task_list ts

abbrev any_common : TaskStatus → TaskStatus → Bool
any_common a b =
    (a.inited && b.inited)
    || (a.migrated && b.migrated)
    || (a.stopped && b.stopped)
    || (a.allow_migr && b.allow_migr)
    || (a.occupied && b.occupied)

unfoldable pub check_task_status : MigrateTask → TaskStatus → Status
check_task_status t expected = if not (any_common t.status expected) then fail einval else done
