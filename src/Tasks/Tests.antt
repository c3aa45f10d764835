-- ===== src/Tasks/Tests.antt =====
-- The table at concrete inputs: a process with a page to give back, and two idle tasks.
use ubturbo.Tasks.Release.{release_finished_tasks-Releases, Releases, IsOver}
use ubturbo.Tasks.Distinct.{IsDistinct, Reached-IsDistinct, after, initial, allocated, got}
use ubturbo.Tasks.Owner.{IsExclusive, get_migrate_task-IsExclusive}
use ubturbo.Tasks.{
  get_migrate_task, Tasks, PageMap, release_finished_tasks, allocate_migrate_task, MigrateTask,
  task_idle, init_task_list, task_init_pid,
}
use ubturbo.Prelude.{All, true, some, ◌≡◌, ◌∷◌, refl, none, false, []}

abbrev idle_task : MigrateTask
idle_task = record {
  status = task_idle;
  is_finish = false;
  finish_times = 0;
  pid = task_init_pid;
  ram_maps = none;
}

abbrev page_map : PageMap
page_map = record { dst_folio = some 40; migrate = false; rollback = false }

abbrev done_task : MigrateTask
done_task = record idle_task {
  status = record task_idle { inited = true };
  is_finish = true;
  finish_times = 9;
  pid = 7;
  ram_maps = some (some (page_map ∷ []) ∷ []);
}

abbrev table : Tasks
table = done_task ∷ idle_task ∷ idle_task ∷ []

abbrev started : Tasks
started = idle_task ∷ idle_task ∷ []

second_is_free : (allocate_migrate_task 8 table).0 ≡ some 1
unfolding allocate_migrate_task
second_is_free = refl

gives_back : (release_finished_tasks (λ _. true) 9 table).0 ≡ 40 ∷ []
unfolding release_finished_tasks
gives_back = refl

Reached-IsDistinct_example :
    IsDistinct (get_migrate_task 7 (allocate_migrate_task 7 (init_task_list started)).1).1
Reached-IsDistinct_example =
    Reached-IsDistinct (after (after (initial started) (allocated 7)) (got 7))

found_first : (get_migrate_task 7 table).0 ≡ some 0
unfolding get_migrate_task
found_first = refl

get_migrate_task-IsExclusive_example : IsExclusive 7 task_idle table 0 (get_migrate_task 7 table).1
get_migrate_task-IsExclusive_example = get_migrate_task-IsExclusive 7 task_idle table 0 found_first

release_finished_tasks-Releases_example :
    let r = release_finished_tasks (λ _. true) 9 table in
    Releases (λ _. true) 9 table r × All (λ t. ¬ (IsOver (λ _. true) 9 t)) r.1
release_finished_tasks-Releases_example = release_finished_tasks-Releases (λ _. true) 9 table
