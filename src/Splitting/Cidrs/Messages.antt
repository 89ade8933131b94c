-- ===== src/Splitting/Cidrs/Messages.antt =====
-- The texts that the tab of the ranges shows.
use split_proxy.Base.{ℕ, Bool, Text, Option, none, some, List}
use split_proxy.Api.{CidrRule, Paginated, Outcome, fulfilled, rejected}
use split_proxy.Script.Shows.{Shows, showing}
use split_proxy.I18n.Keys.{IsTranslated, is_translated}
use split_proxy.Splitting.Messages.{report_group_change-Shows, report_deletion-Shows}
use split_proxy.Splitting.Cidrs.State.{CidrsTab}
use split_proxy.Splitting.Cidrs.Handlers.{
  cidrs_loaded, load_cidrs, to_first_page, cidrs_added, submit_cidrs, handle_add_cidrs,
  all_cidrs_cleared, clear_confirmed, handle_clear_all_cidrs, cidr_group_changed, change_cidr_group,
  cidr_removed, remove_cidr, selected_cidrs_changed, change_cidrs_to, selected_cidrs_deleted,
  delete_confirmed, delete_selected_cidrs, search_debounced, Handler, change_selected_cidrs_group,
}
use split_proxy.Splitting.Cidrs.View.{
  respond, page_changed, filter_changed, Starts, by, load_effect, debounce_timer, type_cidrs,
  type_search, choose_group, choose_bulk_group, choose_filter, change_selection, change_page,
  choose_row_group, click_add, click_bulk_change, click_bulk_delete, click_clear_selection,
  click_clear_all, click_delete,
}

cidrs_loaded-Shows : (o : Outcome (Paginated CidrRule)) → Shows IsTranslated (cidrs_loaded o)
unfolding cidrs_loaded is_translated
cidrs_loaded-Shows (fulfilled r) = search (showing) depth 8
cidrs_loaded-Shows (rejected e) = search showing

load_cidrs-Shows : (c : CidrsTab) → Shows IsTranslated (load_cidrs c)
unfolding load_cidrs
load_cidrs-Shows c = search (showing, cidrs_loaded-Shows) depth 8

to_first_page-Shows : (c : CidrsTab) → Shows IsTranslated (to_first_page c)
unfolding to_first_page
to_first_page-Shows c = search (showing, load_cidrs-Shows)

cidrs_added-Shows : (c : CidrsTab) (o : Outcome (Unit {0})) → Shows IsTranslated (cidrs_added c o)
unfolding cidrs_added is_translated
cidrs_added-Shows c (fulfilled r) = search (showing, to_first_page-Shows) depth 12
cidrs_added-Shows c (rejected e) = search showing

submit_cidrs-Shows :
    (c : CidrsTab) (entered : List Text) (group : Option ℕ)
    → Shows IsTranslated (submit_cidrs c entered group)
unfolding submit_cidrs is_translated
submit_cidrs-Shows c entered none = search showing
submit_cidrs-Shows c entered (some group) = search (showing, cidrs_added-Shows) depth 8

handle_add_cidrs-Shows : (c : CidrsTab) → Shows IsTranslated (handle_add_cidrs c)
unfolding handle_add_cidrs is_translated
handle_add_cidrs-Shows c = search (showing, submit_cidrs-Shows)

all_cidrs_cleared-Shows :
    (c : CidrsTab) (o : Outcome (Unit {0})) → Shows IsTranslated (all_cidrs_cleared c o)
unfolding all_cidrs_cleared is_translated
all_cidrs_cleared-Shows c (fulfilled r) = search (showing, to_first_page-Shows) depth 10
all_cidrs_cleared-Shows c (rejected e) = search showing

clear_confirmed-Shows : (c : CidrsTab) → Shows IsTranslated (clear_confirmed c)
unfolding clear_confirmed
clear_confirmed-Shows c = search (showing, all_cidrs_cleared-Shows) depth 8

handle_clear_all_cidrs-Shows : (c : CidrsTab) → Shows IsTranslated (handle_clear_all_cidrs c)
unfolding handle_clear_all_cidrs is_translated
handle_clear_all_cidrs-Shows c = search (showing, clear_confirmed-Shows)

cidr_group_changed-Shows :
    (pattern : Text) (group : ℕ) (o : Outcome (Unit {0}))
    → Shows IsTranslated (cidr_group_changed pattern group o)
unfolding cidr_group_changed is_translated
cidr_group_changed-Shows pattern group (fulfilled r) = search (showing) depth 8
cidr_group_changed-Shows pattern group (rejected e) = search showing

change_cidr_group-Shows :
    (pattern : Text) (group : Option ℕ) → Shows IsTranslated (change_cidr_group pattern group)
unfolding change_cidr_group
change_cidr_group-Shows pattern none = search showing
change_cidr_group-Shows pattern (some group) = search (showing, cidr_group_changed-Shows)

cidr_removed-Shows : (c : CidrsTab) (o : Outcome (Unit {0})) → Shows IsTranslated (cidr_removed c o)
unfolding cidr_removed is_translated
cidr_removed-Shows c (fulfilled r) = search (showing, load_cidrs-Shows) depth 8
cidr_removed-Shows c (rejected e) = search showing

remove_cidr-Shows : (c : CidrsTab) (pattern : Text) → Shows IsTranslated (remove_cidr c pattern)
unfolding remove_cidr
remove_cidr-Shows c pattern = search (showing, cidr_removed-Shows) depth 8

selected_cidrs_changed-Shows :
    (c : CidrsTab) (oks : List Bool) → Shows IsTranslated (selected_cidrs_changed c oks)
unfolding selected_cidrs_changed
selected_cidrs_changed-Shows c oks =
    search (showing, load_cidrs-Shows, report_group_change-Shows) depth 10

change_cidrs_to-Shows :
    (c : CidrsTab) (group : Option ℕ) → Shows IsTranslated (change_cidrs_to c group)
unfolding change_cidrs_to
change_cidrs_to-Shows c none = search showing
change_cidrs_to-Shows c (some group) = search (showing, selected_cidrs_changed-Shows) depth 8

selected_cidrs_deleted-Shows :
    (c : CidrsTab) (oks : List Bool) → Shows IsTranslated (selected_cidrs_deleted c oks)
unfolding selected_cidrs_deleted
selected_cidrs_deleted-Shows c oks =
    search (showing, load_cidrs-Shows, report_deletion-Shows) depth 10

delete_confirmed-Shows : (c : CidrsTab) → Shows IsTranslated (delete_confirmed c)
unfolding delete_confirmed
delete_confirmed-Shows c = search (showing, selected_cidrs_deleted-Shows) depth 8

delete_selected_cidrs-Shows : (c : CidrsTab) → Shows IsTranslated (delete_selected_cidrs c)
unfolding delete_selected_cidrs is_translated
delete_selected_cidrs-Shows c = search (showing, delete_confirmed-Shows)

pub Starts-Shows : (c : CidrsTab) (h : Handler) → Starts c h → Shows IsTranslated h
unfolding respond search_debounced page_changed filter_changed change_selected_cidrs_group
Starts-Shows c h (by load_effect e) = load_cidrs-Shows c
Starts-Shows c h (by debounce_timer e) = search (showing) depth 8
Starts-Shows c h (by (type_cidrs value) e) = search showing
Starts-Shows c h (by (type_search value) e) = search showing
Starts-Shows c h (by (choose_group value) e) = search showing
Starts-Shows c h (by (choose_bulk_group value) e) = search showing
Starts-Shows c h (by (choose_filter value) e) = search (showing) depth 8
Starts-Shows c h (by (change_selection keys) e) = search showing
Starts-Shows c h (by (change_page page size) e) = search (showing) depth 8
Starts-Shows c h (by (choose_row_group item value) e) = change_cidr_group-Shows item.cidr value
Starts-Shows c h (by click_add e) = handle_add_cidrs-Shows c
Starts-Shows c h (by click_bulk_change e) = change_cidrs_to-Shows c c.bulk_cidr_group
Starts-Shows c h (by click_bulk_delete e) = delete_selected_cidrs-Shows c
Starts-Shows c h (by click_clear_selection e) = search showing
Starts-Shows c h (by click_clear_all e) = handle_clear_all_cidrs-Shows c
Starts-Shows c h (by (click_delete item) e) = remove_cidr-Shows c item.cidr
