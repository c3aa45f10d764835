-- ===== src/Tasks/Release.antt =====
-- Which tasks `release_finished_tasks` releases, what it gives back, and what it leaves.
use ubturbo.Tasks.{
  release_finished_tasks, release_migrate_task, MigrateTask, Tasks, is_finished, TaskStatus,
  task_idle, task_init_pid, putback_maps,
}
use ubturbo.Prelude.{
  ◌≡◌, ◌≢◌, refl, [], ◌∷◌, ℕ, false, true, none, Bool, List, arith, if_ind, ◌⊎◌, inl, inr, ◌≤◌,
  ◌++◌, All,
}

-- A status other than `HAM_TASK_IDLE`: one of its bits is set.
abbrev pub IsUsed : TaskStatus → Type 0
IsUsed s =
    (s.inited ≡ true)
    ⊎ (s.migrated ≡ true)
    ⊎ (s.stopped ≡ true)
    ⊎ (s.allow_migr ≡ true)
    ⊎ (s.occupied ≡ true)

module _ (find_vpid : ℕ → Bool) (jiffies : ℕ) where
  -- A task in use whose process has gone, or that is finished and whose time is up.
  abbrev pub IsOver : MigrateTask → Type 0
  IsOver t =
      IsUsed t.status
      × (((t.pid ≢ task_init_pid) × (find_vpid t.pid ≡ false))
          ⊎ ((t.is_finish ≡ true) × (t.finish_times ≤ jiffies)))

  -- The table afterwards and the folios given back, place by place: a task that is over is free again,
  -- without process and pages, and its folios come before those of the later tasks; any other stays.
  abbrev pub Releases : Tasks → List ℕ × Tasks → Type 0
  Releases [] (fs, []) = fs ≡ []
  Releases [] (fs, t' ∷ ts') = ⊥
  Releases (t ∷ ts) (fs, []) = ⊥
  Releases (t ∷ ts) (fs, t' ∷ ts') =
      (IsOver t
        × (t' ≡ record t {
          status = task_idle;
          pid = task_init_pid;
          is_finish = false;
          ram_maps = none;
        })
        × ((rest : List ℕ) × (fs ≡ putback_maps t.ram_maps ++ rest) × Releases ts (rest, ts')))
      ⊎ (¬ (IsOver t) × (t' ≡ t) × Releases ts (fs, ts'))

  is_finished-IsOver : (t : MigrateTask) → is_finished find_vpid jiffies t ≡ true → IsOver t
  is_finished-IsOver t h = ground (arith, h)

  kept-IsOver : (t : MigrateTask) → is_finished find_vpid jiffies t ≡ false → ¬ (IsOver t)
  kept-IsOver t h over = ground (arith, h, over)

  -- `release_finished_tasks` releases exactly the tasks in use whose process has gone or that are finished
  -- with their time up: each is reset and its folios are given back; the other tasks stay as they are,
  -- and afterwards no task is one to release.
  pub release_finished_tasks-Releases :
      (ts : Tasks)
      → let r = release_finished_tasks find_vpid jiffies ts in
        Releases ts r × All (λ t. ¬ (IsOver t)) r.1
  unfolding release_finished_tasks release_migrate_task
  release_finished_tasks-Releases [] = (refl, tt)
  release_finished_tasks-Releases (t ∷ ts) =
      let rest = release_finished_tasks find_vpid jiffies ts in
      let ih = release_finished_tasks-Releases ts in
      if_ind (λ (r : List ℕ × Tasks). Releases (t ∷ ts) r × All (λ u. ¬ (IsOver u)) r.1)
        (is_finished find_vpid jiffies t)
        (λ y. (
          inl (is_finished-IsOver t y, refl, (rest.0, refl, ih.0)),
          ((λ over. ground (arith, over)), ih.1),
        ))
        (λ n. let kept = kept-IsOver t n in (inr (kept, refl, ih.0), (kept, ih.1)))
