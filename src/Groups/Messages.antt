-- ===== src/Groups/Messages.antt =====
-- The texts that the page of the groups and the workers shows.
use split_proxy.Base.{ℕ, Bool, Text, Option, none, some, List}
use split_proxy.Api.{GroupItem, WorkerItem, Paginated, Outcome, fulfilled, rejected}
use split_proxy.Script.Shows.{Shows, showing}
use split_proxy.I18n.Keys.{IsTranslated, is_translated}
use split_proxy.Groups.State.{GroupsPage, BulkGroupValue}
use split_proxy.Groups.Handlers.{
  Handler, groups_loaded, load_groups, workers_loaded, load_workers, group_removed,
  remove_group_chosen, remove_group_confirmation, worker_removed, remove_worker_chosen,
  remove_worker_confirmation, worker_group_changed, change_worker_group,
}
use split_proxy.Groups.Bulk.{
  report_bulk_group, bulk_group_updated, bulk_update_to, bulk_update_group, report_bulk_deletion,
  step_back, drop_from_selection, workers_deleted, delete_confirmed, bulk_delete_workers,
}
use split_proxy.Groups.View.{
  respond, search_typed, filter_changed, page_changed, Starts, by, groups_effect, workers_effect,
  click_add_group, click_bulk_update, click_bulk_delete, click_clear_selection, click_edit_group,
  click_delete_group, click_delete_worker, cancel_delete_group, confirm_delete_group,
  cancel_delete_worker, confirm_delete_worker, type_search, choose_filter, choose_row_group,
  choose_bulk_group, change_selection, change_page,
}

groups_loaded-Shows : (o : Outcome (Paginated GroupItem)) → Shows IsTranslated (groups_loaded o)
unfolding groups_loaded is_translated
groups_loaded-Shows (fulfilled r) = search showing
groups_loaded-Shows (rejected e) = search showing

load_groups-Shows : Shows IsTranslated load_groups
unfolding load_groups
load_groups-Shows = search (showing, groups_loaded-Shows)

workers_loaded-Shows : (o : Outcome (Paginated WorkerItem)) → Shows IsTranslated (workers_loaded o)
unfolding workers_loaded is_translated
workers_loaded-Shows (fulfilled r) = search showing
workers_loaded-Shows (rejected e) = search showing

load_workers-Shows : (c : GroupsPage) → Shows IsTranslated (load_workers c)
unfolding load_workers
load_workers-Shows c = search (showing, workers_loaded-Shows) depth 8

group_removed-Shows :
    (c : GroupsPage) (o : Outcome (Unit {0})) → Shows IsTranslated (group_removed c o)
unfolding group_removed is_translated
group_removed-Shows c (fulfilled r) =
    search (showing, load_groups-Shows, load_workers-Shows) depth 8
group_removed-Shows c (rejected e) = search showing

remove_group_chosen-Shows :
    (c : GroupsPage) (o : Option GroupItem) → Shows IsTranslated (remove_group_chosen c o)
unfolding remove_group_chosen
remove_group_chosen-Shows c none = search showing
remove_group_chosen-Shows c (some group) = search (showing, group_removed-Shows) depth 8

worker_removed-Shows :
    (c : GroupsPage) (worker : WorkerItem) (o : Outcome (Unit {0}))
    → Shows IsTranslated (worker_removed c worker o)
unfolding worker_removed is_translated
worker_removed-Shows c worker (fulfilled r) = search (showing, load_workers-Shows) depth 8
worker_removed-Shows c worker (rejected e) = search showing

remove_worker_chosen-Shows :
    (c : GroupsPage) (o : Option WorkerItem) → Shows IsTranslated (remove_worker_chosen c o)
unfolding remove_worker_chosen
remove_worker_chosen-Shows c none = search showing
remove_worker_chosen-Shows c (some worker) = search (showing, worker_removed-Shows) depth 8

worker_group_changed-Shows :
    (guid : Text) (group : Option ℕ) (o : Outcome (Unit {0}))
    → Shows IsTranslated (worker_group_changed guid group o)
unfolding worker_group_changed is_translated
worker_group_changed-Shows guid group (fulfilled r) = search (showing) depth 8
worker_group_changed-Shows guid group (rejected e) = search showing

change_worker_group-Shows :
    (worker : WorkerItem) (group : Option ℕ) → Shows IsTranslated (change_worker_group worker group)
unfolding change_worker_group
change_worker_group-Shows worker group = search (showing, worker_group_changed-Shows) depth 8

report_bulk_group-Shows :
    (succeeded : ℕ) (failed : ℕ) → Shows IsTranslated (report_bulk_group succeeded failed)
unfolding report_bulk_group is_translated
report_bulk_group-Shows succeeded failed = search showing

bulk_group_updated-Shows :
    (c : GroupsPage) (group : Option ℕ) (oks : List Bool)
    → Shows IsTranslated (bulk_group_updated c group oks)
unfolding bulk_group_updated
bulk_group_updated-Shows c group oks =
    search (showing, report_bulk_group-Shows, load_workers-Shows) depth 10

bulk_update_to-Shows :
    (c : GroupsPage) (value : Option BulkGroupValue) → Shows IsTranslated (bulk_update_to c value)
unfolding bulk_update_to
bulk_update_to-Shows c none = search showing
bulk_update_to-Shows c (some value) = search (showing, bulk_group_updated-Shows) depth 8

report_bulk_deletion-Shows :
    (succeeded : ℕ) (failed : ℕ) → Shows IsTranslated (report_bulk_deletion succeeded failed)
unfolding report_bulk_deletion is_translated
report_bulk_deletion-Shows succeeded failed = search showing

step_back-Shows : (c : GroupsPage) (removed : ℕ) → Shows IsTranslated (step_back c removed)
unfolding step_back
step_back-Shows c removed = search (showing, load_workers-Shows)

workers_deleted-Shows :
    (c : GroupsPage) (oks : List Bool) → Shows IsTranslated (workers_deleted c oks)
unfolding workers_deleted drop_from_selection
workers_deleted-Shows c oks = search (showing, report_bulk_deletion-Shows, step_back-Shows) depth 8

delete_confirmed-Shows : (c : GroupsPage) → Shows IsTranslated (delete_confirmed c)
unfolding delete_confirmed
delete_confirmed-Shows c = search (showing, workers_deleted-Shows) depth 8

bulk_delete_workers-Shows : (c : GroupsPage) → Shows IsTranslated (bulk_delete_workers c)
unfolding bulk_delete_workers is_translated
bulk_delete_workers-Shows c = search (showing, delete_confirmed-Shows)

pub Starts-Shows : (c : GroupsPage) (h : Handler) → Starts c h → Shows IsTranslated h
unfolding respond bulk_update_group remove_group_confirmation remove_worker_confirmation
    search_typed filter_changed page_changed
Starts-Shows c h (by groups_effect e) = load_groups-Shows
Starts-Shows c h (by workers_effect e) = load_workers-Shows c
Starts-Shows c h (by click_add_group e) = search showing
Starts-Shows c h (by click_bulk_update e) = bulk_update_to-Shows c c.bulk_group
Starts-Shows c h (by click_bulk_delete e) = bulk_delete_workers-Shows c
Starts-Shows c h (by click_clear_selection e) = search showing
Starts-Shows c h (by (click_edit_group group) e) = search showing
Starts-Shows c h (by (click_delete_group group) e) = search showing
Starts-Shows c h (by (click_delete_worker worker) e) = search showing
Starts-Shows c h (by cancel_delete_group e) = search showing
Starts-Shows c h (by confirm_delete_group e) = remove_group_chosen-Shows c c.deleting_group
Starts-Shows c h (by cancel_delete_worker e) = search showing
Starts-Shows c h (by confirm_delete_worker e) = remove_worker_chosen-Shows c c.deleting_worker
Starts-Shows c h (by (type_search value) e) = search (showing) depth 8
Starts-Shows c h (by (choose_filter value) e) = search (showing) depth 8
Starts-Shows c h (by (choose_row_group worker group) e) = change_worker_group-Shows worker group
Starts-Shows c h (by (choose_bulk_group value) e) = search showing
Starts-Shows c h (by (change_selection keys) e) = search showing
Starts-Shows c h (by (change_page page size) e) = search (showing) depth 8
