-- ===== src/Proxies/Messages.antt =====
-- The texts that the page of the proxies shows.
use split_proxy.Base.{ℕ, Bool, Option, none, some, List}
use split_proxy.Api.{ProxyItem, Paginated, Outcome, fulfilled, rejected}
use split_proxy.Script.Shows.{Shows, showing}
use split_proxy.I18n.Keys.{IsTranslated, is_translated}
use split_proxy.Proxies.State.{ProxiesPage}
use split_proxy.Proxies.Handlers.{
  Handler, search_debounced, loaded, load_proxies, reload, clear_selection, handle_search_change,
  handle_page_change, step_back, removed_one, remove_chosen, remove, report_bulk, bulk_removed,
  bulk_remove, confirm_bulk_remove,
}
use split_proxy.Proxies.View.{
  respond, Starts, by, load_effect, debounce_timer, type_search, change_page, change_selection,
  click_add, click_clear_selection, click_bulk_delete, click_edit, click_delete, cancel_delete,
  confirm_delete,
}

loaded-Shows : (o : Outcome (Paginated ProxyItem)) → Shows IsTranslated (loaded o)
unfolding loaded is_translated
loaded-Shows (fulfilled r) = search (showing) depth 8
loaded-Shows (rejected e) = search (showing) depth 8

reload-Shows : (c : ProxiesPage) → Shows IsTranslated (reload c)
unfolding reload load_proxies
reload-Shows c = search (showing, loaded-Shows) depth 10

step_back-Shows : (c : ProxiesPage) (removed : ℕ) → Shows IsTranslated (step_back c removed)
unfolding step_back
step_back-Shows c removed = search (showing, reload-Shows)

removed_one-Shows :
    (c : ProxiesPage) (o : Outcome (Unit {0})) → Shows IsTranslated (removed_one c o)
unfolding removed_one is_translated clear_selection
removed_one-Shows c (fulfilled r) = search (showing, step_back-Shows) depth 8
removed_one-Shows c (rejected e) = search showing

remove_chosen-Shows :
    (c : ProxiesPage) (chosen : Option ProxyItem) → Shows IsTranslated (remove_chosen c chosen)
unfolding remove_chosen
remove_chosen-Shows c none = search showing
remove_chosen-Shows c (some item) = search (showing, removed_one-Shows) depth 8

report_bulk-Shows : (succeeded : ℕ) (failed : ℕ) → Shows IsTranslated (report_bulk succeeded failed)
unfolding report_bulk is_translated
report_bulk-Shows succeeded failed = search showing

bulk_removed-Shows : (c : ProxiesPage) (oks : List Bool) → Shows IsTranslated (bulk_removed c oks)
unfolding bulk_removed
bulk_removed-Shows c oks = search (showing, report_bulk-Shows, step_back-Shows) depth 8

bulk_remove-Shows : (c : ProxiesPage) → Shows IsTranslated (bulk_remove c)
unfolding bulk_remove
bulk_remove-Shows c = search (showing, bulk_removed-Shows) depth 8

confirm_bulk_remove-Shows : (c : ProxiesPage) → Shows IsTranslated (confirm_bulk_remove c)
unfolding confirm_bulk_remove is_translated
confirm_bulk_remove-Shows c = search (showing, bulk_remove-Shows)

pub Starts-Shows : (c : ProxiesPage) (h : Handler) → Starts c h → Shows IsTranslated h
unfolding respond remove search_debounced handle_search_change handle_page_change clear_selection
Starts-Shows c h (by load_effect e) = reload-Shows c
Starts-Shows c h (by debounce_timer e) = search showing depth 8
Starts-Shows c h (by (type_search value) e) = search showing depth 8
Starts-Shows c h (by (change_page page size) e) = search showing depth 8
Starts-Shows c h (by (change_selection keys) e) = search showing
Starts-Shows c h (by click_add e) = search showing
Starts-Shows c h (by click_clear_selection e) = search showing
Starts-Shows c h (by click_bulk_delete e) = confirm_bulk_remove-Shows c
Starts-Shows c h (by (click_edit item) e) = search showing
Starts-Shows c h (by (click_delete item) e) = search showing
Starts-Shows c h (by cancel_delete e) = search showing
Starts-Shows c h (by confirm_delete e) = remove_chosen-Shows c c.deleting_proxy
