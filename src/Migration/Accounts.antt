-- ===== src/Migration/Accounts.antt =====
-- `UpdateMigResult` with `RefreshPairAccountMask`, and `UpdateGroupedMigrationResult` of
-- plugins/smap/src/user/strategy/grouped_strategy.c. `GetProcessAttr` looks a process up in a table
-- of accounts. A mask is the function of its bits.
pub mod Invariant
use mathlib.Core.Option
use ubturbo.Limits.{remote_numa_num}
use ubturbo.Migration.Message.{get_mig_list_success_pages, MigEntry}
use ubturbo.Prelude.{
  Option, ◌-◌, zero, ◌||◌, suc, false, some, ◌&&◌, ℕ, Bool, ◌+◌, List, none, ◌∷◌, not, [], ltb, leb,
  if◌then◌else◌, ◌==◌, u32, u32_max, u64, update,
}

pub record GroupTarget : Type 0 where
  pub nid : ℕ
  pub used_pages : ℕ

pub record MigrationGroup : Type 0 where
  pub locals : List ℕ
  pub targets : List GroupTarget

-- What an account keeps of a process: its groups, `remoteNrPagesAfterMigrate` by local node and
-- remote index, `accountLocalMask` by remote index and local node, and `managedLocalMask`.
pub record Account : Type 0 where
  pub group_enabled : Bool
  pub groups : List MigrationGroup
  pub remote_nr_pages : ℕ → ℕ → ℕ
  pub account_local_mask : ℕ → ℕ → Bool
  pub managed_local_mask : ℕ → Bool

unfoldable pub group_has_local : List ℕ → ℕ → Bool
group_has_local [] nid = false
group_has_local (l ∷ ls) nid = (l == nid) || group_has_local ls nid

unfoldable pub group_target_index : List GroupTarget → ℕ → Option ℕ
group_target_index [] nid = none
group_target_index (t ∷ ts) nid =
    if t.nid == nid then some 0 else Option.map suc (group_target_index ts nid)

-- `targets[i].usedPages` replaced by a function of it.
abbrev pub change_used : (ℕ → ℕ) → List GroupTarget → ℕ → List GroupTarget
change_used f [] i = []
change_used f (t ∷ ts) zero = record t { used_pages = f t.used_pages } ∷ ts
change_used f (t ∷ ts) (suc i) = t ∷ change_used f ts i

abbrev pub at_target : (ℕ → ℕ) → MigrationGroup → Option ℕ → Option MigrationGroup
at_target f g none = none
at_target f g (some i) = some (record g { targets = change_used f g.targets i })

abbrev pub more_used : ℕ → ℕ → ℕ
more_used n used = u64 (used + n)

abbrev pub less_used : ℕ → ℕ → ℕ
less_used n used = if ltb used n then 0 else used - n

abbrev or_else {ℓ} : {A : Type ℓ} → Option A → Option A → Option A
or_else none m = m
or_else (some a) m = some a

-- One round of the loop over the groups: the group as it leaves it, or none to go on.
unfoldable pub update_group : ℕ → ℕ → ℕ → MigrationGroup → Option MigrationGroup
unfolding group_has_local group_target_index
update_group from to n g =
    or_else
      (if group_has_local g.locals from
        then (if group_has_local g.locals to
            then some g
            else at_target (more_used n) g (group_target_index g.targets to))
        else none)
      (if group_has_local g.locals to
        then at_target (less_used n) g (group_target_index g.targets from)
        else none)

unfoldable pub update_groups : ℕ → ℕ → ℕ → List MigrationGroup → List MigrationGroup
unfolding update_group
update_groups from to n [] = []
update_groups from to n (g ∷ gs) =
    let rest = update_groups from to n gs in
    elim (update_group from to n g) [ none ↦ g ∷ rest | some g' ↦ g' ∷ gs ]

unfoldable pub update_grouped_migration_result : Account → ℕ → ℕ → ℕ → Account
unfolding update_groups
update_grouped_migration_result a from to n =
    if not a.group_enabled || (n == 0)
    then a
    else record a { groups = update_groups from to n a.groups }

unfoldable pub refresh_pair_account_mask : Account → ℕ → ℕ → Account
refresh_pair_account_mask a l i =
    let mask =
      update a.account_local_mask i
        (update (a.account_local_mask i) l (ltb 0 (a.remote_nr_pages l i))) in
    record a {
      account_local_mask = mask;
      managed_local_mask = λ n. a.managed_local_mask n || mask i n;
    }

abbrev pub set_pages : Account → ℕ → ℕ → ℕ → Account
set_pages a l i n = record a {
  remote_nr_pages = update a.remote_nr_pages l (update (a.remote_nr_pages l) i n);
}

-- The account of a pair after pages went out, and after pages came back.
abbrev pub added : ℕ → ℕ → ℕ
added n account = if ltb (u32_max - account) n then u32_max else u32 (account + n)

abbrev pub removed : ℕ → ℕ → ℕ
removed n account = if ltb account n then 0 else account - n

-- One result for the account of its process. `nr_local_numa` is not negative.
unfoldable pub update_account : ℕ → MigEntry → Account → Account
unfolding get_mig_list_success_pages update_grouped_migration_result refresh_pair_account_mask
update_account nr_local_numa m a =
    let n = get_mig_list_success_pages m in
    let from_local = ltb m.from nr_local_numa in
    let to_local = ltb m.to nr_local_numa in
    let from_remote = leb nr_local_numa m.from && ltb m.from (nr_local_numa + remote_numa_num) in
    let to_remote = leb nr_local_numa m.to && ltb m.to (nr_local_numa + remote_numa_num) in
    let out = m.to - nr_local_numa in
    let back = m.from - nr_local_numa in
    if a.group_enabled
    then update_grouped_migration_result a m.from m.to n
    else if from_local && to_remote
    then refresh_pair_account_mask (set_pages a m.from out (added n (a.remote_nr_pages m.from out)))
        m.from out
    else if from_remote && to_local
    then refresh_pair_account_mask (set_pages a m.to back (removed n (a.remote_nr_pages m.to back)))
        m.to back
    else a

abbrev pub Table : Type 0
Table = ℕ → Option Account

abbrev pub update_entry : ℕ → MigEntry → Table → Option Account → Table
update_entry nr_local_numa m t none = t
update_entry nr_local_numa m t (some a) =
    if not m.success_to_user then t else update t m.pid (some (update_account nr_local_numa m a))

unfoldable pub update_mig_result : ℕ → List MigEntry → Table → Table
unfolding update_account
update_mig_result nr_local_numa [] t = t
update_mig_result nr_local_numa (m ∷ ms) t =
    update_mig_result nr_local_numa ms (update_entry nr_local_numa m t (t m.pid))
