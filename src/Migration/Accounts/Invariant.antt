-- ===== src/Migration/Accounts/Invariant.antt =====
-- The masks agree with the accounts, whatever results come in.
use ubturbo.Limits.{remote_numa_num}
use ubturbo.Migration.Message.{MigEntry, get_mig_list_success_pages}
use native.Mathlib.Decide.{ℕ_discrete}
use mathlib.Core.Path.{subst}
use ubturbo.Migration.Accounts.{
  refresh_pair_account_mask, Account, set_pages, removed, update_grouped_migration_result, Table,
  update_mig_result, added, update_account, update_entry,
}
use ubturbo.Prelude.{
  ◌≤◌, arith, ℕ, ◌≡◌, true, ltb, u32_max, Option, refl, some, ◌+◌, ◌-◌, not, ◌&&◌, List, [], ◌∷◌,
  ◌||◌, none, ◌==◌, leb, if_ind,
}

-- A remote index has the bit of each local node with pages on its account, no other, and every such
-- node is managed; accounts are words.
pub record IsInAgreement (a : Account) : Type 0 where
  pub marked : (l i : ℕ) → a.account_local_mask i l ≡ ltb 0 (a.remote_nr_pages l i)
  pub managed : (l i : ℕ) → a.account_local_mask i l ≡ true → a.managed_local_mask l ≡ true
  pub word : (l i : ℕ) → a.remote_nr_pages l i ≤ u32_max

refresh-IsInAgreement :
    (a : Account) (l i n : ℕ)
    → n ≤ u32_max
    → IsInAgreement a
    → IsInAgreement (refresh_pair_account_mask (set_pages a l i n) l i)
unfolding refresh_pair_account_mask
refresh-IsInAgreement a l i n w h = record {
  marked = λ l' i'. ground (arith, h.marked l' i');
  managed = λ l' i' e. ground (arith, e, h.managed l' i', h.marked l' i', h.managed l' i);
  word = λ l' i'. ground (arith, w, h.word l' i');
}

added-le : (n account : ℕ) → added n account ≤ u32_max
added-le n account = ground arith

removed-le : (n account : ℕ) → account ≤ u32_max → removed n account ≤ u32_max
removed-le n account h = ground (arith, h)

groups-IsInAgreement :
    (a : Account) (from to n : ℕ)
    → IsInAgreement a
    → IsInAgreement (update_grouped_migration_result a from to n)
unfolding update_grouped_migration_result
groups-IsInAgreement a from to n h =
    if_ind IsInAgreement (not a.group_enabled || (n == 0)) (λ _. h)
      (λ _. record { marked = h.marked; managed = h.managed; word = h.word })

update_account-IsInAgreement :
    (nr_local_numa : ℕ) (m : MigEntry) (a : Account)
    → IsInAgreement a
    → IsInAgreement (update_account nr_local_numa m a)
unfolding update_account
update_account-IsInAgreement k m a h =
    let n = get_mig_list_success_pages m in
    if_ind IsInAgreement a.group_enabled (λ _. groups-IsInAgreement a m.from m.to n h)
      (λ _.
        if_ind IsInAgreement (ltb m.from k && (leb k m.to && ltb m.to (k + remote_numa_num)))
          (λ _.
            refresh-IsInAgreement a m.from (m.to - k) _
              (added-le n (a.remote_nr_pages m.from (m.to - k))) h)
          (λ _.
            if_ind IsInAgreement ((leb k m.from && ltb m.from (k + remote_numa_num)) && ltb m.to k)
              (λ _.
                refresh-IsInAgreement a m.to (m.from - k) _
                  (removed-le n (a.remote_nr_pages m.to (m.from - k)) (h.word m.to (m.from - k))) h)
              (λ _. h)))

-- Every account of a table agrees with its masks.
abbrev pub AllInAgreement : Table → Type 0
AllInAgreement t = (pid : ℕ) (a : Account) → t pid ≡ some a → IsInAgreement a

update_entry-AllInAgreement :
    (k : ℕ) (m : MigEntry) (t : Table) (o : Option Account)
    → t m.pid ≡ o
    → AllInAgreement t
    → AllInAgreement (update_entry k m t o)
update_entry-AllInAgreement k m t none e h = h
update_entry-AllInAgreement k m t (some a) e h =
    if_ind AllInAgreement (not m.success_to_user) (λ _. h)
      λ _ pid b eb. elim (ℕ_discrete m.pid pid) [
        | yes same ↦
            let found : some (update_account k m a) ≡ some b = ground (arith, same, eb) in
            let e' : update_account k m a ≡ b = cc in
            subst IsInAgreement e' (update_account-IsInAgreement k m a (h m.pid a e))
        | no other ↦ h pid b (ground (arith, other, eb))
      ]

-- `UpdateMigResult` keeps every account in agreement with its masks.
pub update_mig_result-AllInAgreement :
    (nr_local_numa : ℕ) (ms : List MigEntry) (t : Table)
    → AllInAgreement t
    → AllInAgreement (update_mig_result nr_local_numa ms t)
unfolding update_mig_result
update_mig_result-AllInAgreement k [] t h = h
update_mig_result-AllInAgreement k (m ∷ ms) t h =
    update_mig_result-AllInAgreement k ms (update_entry k m t (t m.pid))
      (update_entry-AllInAgreement k m t (t m.pid) refl h)
