-- ===== src/Home/Messages.antt =====
-- The texts that the dashboard shows when its load fails.
use split_proxy.Api.{Outcome, fulfilled, rejected}
use split_proxy.Script.Shows.{Shows, showing}
use split_proxy.I18n.Keys.{IsTranslated, is_translated}
use split_proxy.Api.{Answers}
use split_proxy.Home.Dashboard.{
  HomePage, on_fulfilled, dashboard_calls, dashboard_settled, load_dashboard,
}

on_fulfilled-Shows :
    {A : Type 0} (set : A → HomePage → HomePage) (o : Outcome A)
    → Shows IsTranslated (on_fulfilled set o)
on_fulfilled-Shows set (fulfilled r) = search showing
on_fulfilled-Shows set (rejected e) = search showing

dashboard_settled-Shows : (os : Answers dashboard_calls) → Shows IsTranslated (dashboard_settled os)
unfolding dashboard_settled is_translated
dashboard_settled-Shows os = search (showing, on_fulfilled-Shows) depth 20

pub load_dashboard-Shows : Shows IsTranslated load_dashboard
unfolding load_dashboard
load_dashboard-Shows = search (showing, dashboard_settled-Shows) depth 8
