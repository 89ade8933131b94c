-- ===== src/Splitting/Messages.antt =====
-- The texts that the tabs of the routing page share.
use split_proxy.Base.{ℕ}
use split_proxy.Script.Shows.{Shows, showing}
use split_proxy.I18n.Keys.{IsTranslated, is_translated}
use split_proxy.Splitting.Settings.{report_group_change, report_deletion}

module _ {S : Type 0} (succeeded total : ℕ) where
  pub report_group_change-Shows : Shows {S = S} IsTranslated (report_group_change succeeded total)
  unfolding report_group_change is_translated
  report_group_change-Shows = search showing

  pub report_deletion-Shows : Shows {S = S} IsTranslated (report_deletion succeeded total)
  unfolding report_deletion is_translated
  report_deletion-Shows = search showing
