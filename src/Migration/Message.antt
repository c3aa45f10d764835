-- ===== src/Migration/Message.antt =====
-- An entry of a migration message: `struct MigList` of plugins/smap/src/user/manage/manage.h without
-- its addresses, and `GetMigListSuccessPages`.
use ubturbo.Prelude.{not, ◌-◌, ℕ, ◌||◌, Bool, leb, if◌then◌else◌}

pub record MigEntry : Type 0 where
  pub success_to_user : Bool
  pub nr : ℕ
  pub failed_mig_nr : ℕ
  pub failed_isolated_nr : ℕ
  pub pid : ℕ
  pub from : ℕ
  pub to : ℕ

unfoldable pub get_mig_list_success_pages : MigEntry → ℕ
get_mig_list_success_pages l =
    if not l.success_to_user || leb l.nr l.failed_mig_nr
    then 0
    else let success = l.nr - l.failed_mig_nr in
      if leb success l.failed_isolated_nr then 0 else success - l.failed_isolated_nr
