-- ===== src/Migration/Tests.antt =====
-- A message of one entry, split between two threads of which the second fails.
use ubturbo.Migration.Send.Bounds.{
  IsWithin, build_comp_mig_list_from_scan-bounds, add_mig_list-IsWithin, decide_thread_num_accepted,
}
use ubturbo.Migration.Send.{
  AddrList, build_comp_mig_list_from_scan, decide_thread_num, add_mig_list, sig_thread_mig_out,
  is_thread_num_invalid,
}
use ubturbo.Migration.Compensation.Totals.{gone_out, success_out, count_entries-gone_out}
use ubturbo.Migration.Compensation.{count_entries, SwapPairStat}
use ubturbo.Migration.Accounts.Invariant.{
  AllInAgreement, IsInAgreement, update_mig_result-AllInAgreement,
}
use ubturbo.Migration.Accounts.{Account, Table, update_account, update_mig_result}
use native.Mathlib.Decide.{ℕ_discrete}
use mathlib.Core.Path.{subst}
use ubturbo.Result.{ok}
use ubturbo.Migration.Threads.Results.{IsCounted, IsHonest, aggregate_sub_mig_results-IsCounted}
use ubturbo.Migration.Threads.Share.{IsShared, build_sub_migrate_msgs-IsShared}
use ubturbo.Migration.Message.{get_mig_list_success_pages, MigEntry}
use ubturbo.Migration.Threads.{build_sub_migrate_msgs, Subs, aggregate_sub_mig_results, sub_entry}
use ubturbo.Prelude.{
  true, false, Bool, [], arith, ◌≡◌, ℕ, ◌∷◌, refl, ◌==◌, All, update, some, none, if◌then◌else◌,
  ◌⊎◌, ◌≤◌, min,
}

abbrev five_pages : MigEntry
five_pages = record {
  success_to_user = false;
  nr = 5;
  failed_mig_nr = 0;
  failed_isolated_nr = 0;
  pid = 7;
  from = 0;
  to = 4;
}

abbrev two_threads : Subs
two_threads =
    update (update (λ _. []) 0 (sub_entry 0 five_pages 3 0 ∷ [])) 1
      (sub_entry 0 five_pages 2 3 ∷ [])

split_in_two : build_sub_migrate_msgs true 2 (five_pages ∷ []) ≡ ok two_threads
unfolding build_sub_migrate_msgs
split_in_two = refl

build_sub_migrate_msgs-IsShared_example : IsShared 2 (five_pages ∷ []) two_threads
build_sub_migrate_msgs-IsShared_example =
    build_sub_migrate_msgs-IsShared true 2 (five_pages ∷ []) two_threads (omega arith, tt)
      split_in_two

-- What the kernel reports: one page of the first thread failed.
abbrev reported : Subs
reported = update two_threads 0 (
    record (sub_entry 0 five_pages 3 0) {
      entry = record five_pages { nr = 3; failed_mig_nr = 1; success_to_user = true };
    }
    ∷ [])

abbrev second_fails : ℕ → Bool
second_fails i = i == 1

honest : (i : ℕ) → All IsHonest (reported i)
honest i = ground arith

two_moved :
    get_mig_list_success_pages
      (aggregate_sub_mig_results second_fails reported 2 0 (λ _. five_pages) 0)
    ≡ 2
unfolding get_mig_list_success_pages aggregate_sub_mig_results
two_moved = refl

aggregate_sub_mig_results-IsCounted_example : IsCounted second_fails reported 0 2 (λ _. five_pages)
aggregate_sub_mig_results-IsCounted_example =
    aggregate_sub_mig_results-IsCounted second_fails reported 0 2 (λ _. five_pages)
      (refl, (refl, omega arith)) honest refl

-- The account of process 7, and a result for it: five pages out, of which one failed.
abbrev account : Account
account = record {
  group_enabled = false;
  groups = [];
  remote_nr_pages = λ _ _. 0;
  account_local_mask = λ _ _. false;
  managed_local_mask = λ _. false;
}

abbrev accounts : Table
accounts pid = if pid == 7 then some account else none

abbrev went_out : MigEntry
went_out = record five_pages { success_to_user = true; failed_mig_nr = 1 }

four_on_account : (update_account 4 went_out account).remote_nr_pages 0 0 ≡ 4
unfolding update_account
four_on_account = refl

account-IsInAgreement : IsInAgreement account
account-IsInAgreement = record {
  marked = λ l i. refl;
  managed = λ l i e. absurd (cc);
  word = λ l i. omega arith;
}

agrees : AllInAgreement accounts
agrees pid a e = elim (ℕ_discrete pid 7) [
  | yes y ↦
      let same : some account ≡ some a = ground (arith, y, e) in
      let e' : account ≡ a = cc in subst IsInAgreement e' account-IsInAgreement
  | no n ↦ absurd (ground (arith, n, e))
]

update_mig_result-AllInAgreement_example :
    AllInAgreement (update_mig_result 4 (went_out ∷ []) accounts)
update_mig_result-AllInAgreement_example =
    update_mig_result-AllInAgreement 4 (went_out ∷ []) accounts agrees

-- Process 7 is grouped; four of its pages went out.
abbrev one_stat : SwapPairStat
one_stat = record {
  pid = 7;
  local_nid = 0;
  remote_nid = 4;
  local_to_remote_success = 4;
  remote_to_local_success = 0;
  has_local_to_remote = true;
  has_remote_to_local = false;
}

counted_out : count_entries 800 (λ p. p == 7) 4 (went_out ∷ []) [] ≡ ok (one_stat ∷ [])
unfolding count_entries
counted_out = refl

success_four : success_out (λ p. p == 7) 4 (went_out ∷ []) ≡ 4
unfolding get_mig_list_success_pages
success_four = refl

count_entries-gone_out_example :
    gone_out (one_stat ∷ []) ≡ success_out (λ p. p == 7) 4 (went_out ∷ [])
count_entries-gone_out_example =
    count_entries-gone_out 800 (λ p. p == 7) 4 (went_out ∷ []) (one_stat ∷ [])
      (omega (arith, success_four)) counted_out

abbrev small_list : AddrList
small_list = record { pid = 7; from = 0; to = 4; nr = 2; addr = some (1 ∷ 3 ∷ []) }

add_mig_list-IsWithin_example : IsWithin 2 [] (add_mig_list 2 true [] small_list)
add_mig_list-IsWithin_example = add_mig_list-IsWithin 2 true [] small_list (omega arith)

decide_thread_num_accepted_example :
    let n = decide_thread_num true false (300 ∷ 200 ∷ []) in
    ((n ≡ sig_thread_mig_out) ⊎ (is_thread_num_invalid n ≡ false))
    × ((n ≡ sig_thread_mig_out) ⊎ ((true ≡ true) × (false ≡ false)))
decide_thread_num_accepted_example = decide_thread_num_accepted true false (300 ∷ 200 ∷ [])

build_comp_mig_list_from_scan-bounds_example :
    let r = build_comp_mig_list_from_scan 5 8 3 true true in
    (r.built ≤ min (min 5 8) 3) × ((r.should_freeze ≡ true) ⊎ (r.built ≡ 5))
build_comp_mig_list_from_scan-bounds_example = build_comp_mig_list_from_scan-bounds 5 8 3 true true
