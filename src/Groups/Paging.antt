-- ===== src/Groups/Paging.antt =====
-- The page number of the workers' table in all runs.
use native.Mathlib.Nat.{le_refl}
use split_proxy.Base.{ℕ, ◌≤◌, Bool, Text, List, Option, none, some, arith}
use split_proxy.Api.{GroupItem, WorkerItem, Outcome, fulfilled, rejected}
use split_proxy.Script.{modify}
use split_proxy.Script.Keeps.{Keeps, Keeps-modify, keeping}
use split_proxy.Script.Interleaving.{Reach, Reach-invariant}
use split_proxy.Groups.{
  GroupsPage, initial, BulkGroupValue, Handler, load_groups, load_workers, group_removed,
  remove_group_chosen, remove_group_confirmation, worker_removed, remove_worker_chosen,
  remove_worker_confirmation, worker_group_changed, change_worker_group, bulk_group_updated,
  bulk_update_to, bulk_update_group, last_page, step_back, drop_from_selection, workers_deleted,
  delete_confirmed, bulk_delete_workers, page_changed, search_typed, filter_changed, Input, Enabled,
  respond, Starts, by, groups_effect, workers_effect, click_add_group, click_bulk_update,
  click_bulk_delete, click_clear_selection, click_edit_group, click_delete_group,
  click_delete_worker, cancel_delete_group, confirm_delete_group, cancel_delete_worker,
  confirm_delete_worker, type_search, choose_filter, choose_row_group, choose_bulk_group,
  change_selection, change_page,
}
use split_proxy.Groups.Frame.{
  Ignores, load_groups-Keeps, load_workers-Keeps, report_bulk_group-Keeps,
  report_bulk_deletion-Keeps,
}

abbrev pub Paged : GroupsPage → Type 0
Paged s = (1 ≤ s.current_page) × (1 ≤ s.page_size)

last_page-ge-one : (total removed page_size : ℕ) → 1 ≤ last_page total removed page_size
unfolding last_page
last_page-ge-one total removed page_size = omega arith

set_current_page-Keeps : (n : ℕ) → 1 ≤ n → Keeps Paged (modify (λ s. record s { current_page = n }))
set_current_page-Keeps n h = Keeps-modify (λ s i. (h, i.1))

set_page_size-Keeps : (n : ℕ) → 1 ≤ n → Keeps Paged (modify (λ s. record s { page_size = n }))
set_page_size-Keeps n h = Keeps-modify (λ s i. (i.0, h))

Paged-Ignores : Ignores Paged
Paged-Ignores = record {
  on_loading = λ b s i. i;
  on_groups = λ r s i. i;
  on_workers = λ r s i. i;
  on_total = λ n s i. i;
}

groups-Keeps : Keeps Paged load_groups
groups-Keeps = load_groups-Keeps Paged-Ignores

workers-Keeps : (c : GroupsPage) → Keeps Paged (load_workers c)
workers-Keeps = load_workers-Keeps Paged-Ignores

group_removed-Keeps : (c : GroupsPage) (o : Outcome (Unit {0})) → Keeps Paged (group_removed c o)
unfolding group_removed
group_removed-Keeps c (fulfilled _) = search (keeping, groups-Keeps, workers-Keeps) depth 8
group_removed-Keeps c (rejected e) = search keeping

remove_group_chosen-Keeps :
    (c : GroupsPage) (o : Option GroupItem) → Keeps Paged (remove_group_chosen c o)
unfolding remove_group_chosen
remove_group_chosen-Keeps c none = search keeping
remove_group_chosen-Keeps c (some group) = search (keeping, group_removed-Keeps) depth 8

worker_removed-Keeps :
    (c : GroupsPage) (worker : WorkerItem) (o : Outcome (Unit {0}))
    → Keeps Paged (worker_removed c worker o)
unfolding worker_removed
worker_removed-Keeps c worker (fulfilled _) = search (keeping, workers-Keeps) depth 8
worker_removed-Keeps c worker (rejected e) = search keeping

remove_worker_chosen-Keeps :
    (c : GroupsPage) (o : Option WorkerItem) → Keeps Paged (remove_worker_chosen c o)
unfolding remove_worker_chosen
remove_worker_chosen-Keeps c none = search keeping
remove_worker_chosen-Keeps c (some worker) = search (keeping, worker_removed-Keeps) depth 8

worker_group_changed-Keeps :
    (guid : Text) (group : Option ℕ) (o : Outcome (Unit {0}))
    → Keeps Paged (worker_group_changed guid group o)
unfolding worker_group_changed
worker_group_changed-Keeps guid group (fulfilled _) = search keeping
worker_group_changed-Keeps guid group (rejected e) = search keeping

bulk_group_updated-Keeps :
    (c : GroupsPage) (group : Option ℕ) (oks : List Bool)
    → Keeps Paged (bulk_group_updated c group oks)
unfolding bulk_group_updated
bulk_group_updated-Keeps c group oks =
    search (keeping, report_bulk_group-Keeps, workers-Keeps) depth 10

bulk_update_to-Keeps :
    (c : GroupsPage) (value : Option BulkGroupValue) → Keeps Paged (bulk_update_to c value)
unfolding bulk_update_to
bulk_update_to-Keeps c none = search keeping
bulk_update_to-Keeps c (some value) = search (keeping, bulk_group_updated-Keeps) depth 8

step_back-Keeps : (c : GroupsPage) (removed : ℕ) → Keeps Paged (step_back c removed)
unfolding step_back
step_back-Keeps c removed =
    search (keeping, set_current_page-Keeps, last_page-ge-one, workers-Keeps)

drop_from_selection-Keeps : (deleted : List Text) → Keeps Paged (drop_from_selection deleted)
unfolding drop_from_selection
drop_from_selection-Keeps deleted = search keeping

workers_deleted-Keeps : (c : GroupsPage) (oks : List Bool) → Keeps Paged (workers_deleted c oks)
unfolding workers_deleted
workers_deleted-Keeps c oks =
    search (keeping, drop_from_selection-Keeps, report_bulk_deletion-Keeps, step_back-Keeps) depth 8

delete_confirmed-Keeps : (c : GroupsPage) → Keeps Paged (delete_confirmed c)
unfolding delete_confirmed
delete_confirmed-Keeps c = search (keeping, workers_deleted-Keeps) depth 8

respond-Keeps : (c : GroupsPage) (i : Input) → Paged c → Enabled c i → Keeps Paged (respond c i)
unfolding respond bulk_update_group bulk_delete_workers remove_group_confirmation
    remove_worker_confirmation change_worker_group page_changed search_typed filter_changed
respond-Keeps c groups_effect v e = groups-Keeps
respond-Keeps c workers_effect v e = workers-Keeps c
respond-Keeps c click_add_group v e = search keeping
respond-Keeps c click_bulk_update v e = bulk_update_to-Keeps c c.bulk_group
respond-Keeps c click_bulk_delete v e = search (keeping, delete_confirmed-Keeps)
respond-Keeps c click_clear_selection v e = search keeping
respond-Keeps c (click_edit_group group) v e = search keeping
respond-Keeps c (click_delete_group group) v e = search keeping
respond-Keeps c (click_delete_worker worker) v e = search keeping
respond-Keeps c cancel_delete_group v e = search keeping
respond-Keeps c confirm_delete_group v e = remove_group_chosen-Keeps c c.deleting_group
respond-Keeps c cancel_delete_worker v e = search keeping
respond-Keeps c confirm_delete_worker v e = remove_worker_chosen-Keeps c c.deleting_worker
respond-Keeps c (type_search value) v e = search (keeping, set_current_page-Keeps, le_refl) depth 8
respond-Keeps c (choose_filter value) v e =
    search (keeping, set_current_page-Keeps, le_refl) depth 8
respond-Keeps c (choose_row_group worker group) v e =
    search (keeping, worker_group_changed-Keeps) depth 8
respond-Keeps c (choose_bulk_group value) v e = search keeping
respond-Keeps c (change_selection keys) v e = search keeping
respond-Keeps c (change_page page size) v e =
    search (keeping, set_current_page-Keeps, set_page_size-Keeps, e.0, e.1, le_refl) depth 8

Starts-Keeps : (c : GroupsPage) (h : Handler) → Paged c → Starts c h → Keeps Paged h
Starts-Keeps c h v (by i e) = respond-Keeps c i v e

-- In every interleaving of the page's handlers, on any answers of the server, the current page and
-- the page size of the workers' table are at least 1.
pub Reach-Paged : {s : GroupsPage} {hs : List Handler} → Reach Starts initial s hs → Paged s
Reach-Paged r = Reach-invariant Paged Starts Starts-Keeps initial (omega arith) r
