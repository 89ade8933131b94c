-- ===== src/Groups/Handlers.antt =====
-- Loading, single deletions and the group of one worker, on `GroupsPage`. The argument `c` is the
-- state that the handler's closure captured at its render.
use split_proxy.Base.{
  ℕ, true, false, not, Text, text_beq, Option, none, some, [], map, filter, length, nat_beq,
  if◌then◌else◌,
}
use split_proxy.Api.{
  GroupItem, WorkerItem, Paginated, RouteGroupFilter, group_id, no_group, get_groups, get_workers,
  remove_group, remove_worker, update_worker, Outcome, fulfilled, rejected,
}
use split_proxy.Script.{
  Script, skip, modify, show_message, call, ◌>>=◌, ◌>>◌, success, failure, translated, describe,
}
use split_proxy.Text.{trim}
use split_proxy.Groups.State.{GroupsPage, WorkerGroupFilter, all_workers, ungrouped, of_group}

abbrev pub Handler : Type 0
Handler = Script GroupsPage (Unit {0})

unfoldable pub groups_loaded : Outcome (Paginated GroupItem) → Handler
groups_loaded (fulfilled response) = modify (λ s. record s { groups = response.results })
groups_loaded (rejected e) = show_message failure (translated "groupsPage.groupsNotLoaded" [])

unfoldable pub load_groups : Handler
load_groups = do r ← call get_groups; groups_loaded r

-- `if (guid) { params.guid = guid; }`
unfoldable pub guid_param : Text → Option Text
guid_param search = let guid = trim search in if nat_beq (length guid) 0 then none else some guid

-- `if (workerGroupFilter !== "all") { params.group = workerGroupFilter; }`
unfoldable pub group_param : WorkerGroupFilter → Option RouteGroupFilter
group_param all_workers = none
group_param ungrouped = some no_group
group_param (of_group g) = some (group_id g)

unfoldable pub workers_loaded : Outcome (Paginated WorkerItem) → Handler
workers_loaded (fulfilled response) = do
  modify (λ s. record s { workers = response.results })
  modify (λ s. record s { total_workers = response.count })
workers_loaded (rejected e) = show_message failure (translated "groupsPage.workersNotLoaded" [])

unfoldable pub load_workers : GroupsPage → Handler
load_workers c = do
  modify (λ s. record s { loading = true })
  r ← call (
      get_workers (record {
        guid = guid_param c.worker_search;
        group = group_param c.worker_group_filter;
        page = some c.current_page;
        page_size = some c.page_size;
      }))
  workers_loaded r
  modify (λ s. record s { loading = false })

unfoldable pub group_removed : GroupsPage → Outcome (Unit {0}) → Handler
group_removed c (fulfilled _) = do
  show_message success (translated "groupsPage.groupDeleted" [])
  modify (λ s. record s { deleting_group = none })
  load_groups
  load_workers c
group_removed c (rejected e) = show_message failure (describe e "groupsPage.deletionGroupError")

unfoldable pub remove_group_chosen : GroupsPage → Option GroupItem → Handler
remove_group_chosen c none = skip
remove_group_chosen c (some group) = do
  modify (λ s. record s { delete_loading = true })
  r ← call (remove_group group.id)
  group_removed c r
  modify (λ s. record s { delete_loading = false })

unfoldable pub remove_group_confirmation : GroupsPage → Handler
remove_group_confirmation c = remove_group_chosen c c.deleting_group

unfoldable pub worker_removed : GroupsPage → WorkerItem → Outcome (Unit {0}) → Handler
worker_removed c worker (fulfilled _) = do
  show_message success (translated "groupsPage.workerDeleted" [])
  modify (λ s. record s { deleting_worker = none })
  modify (λ s. record s {
    selected_worker_guids =
        filter (λ guid. not (text_beq guid worker.guid)) s.selected_worker_guids;
  })
  load_workers c
worker_removed c worker (rejected e) =
    show_message failure (describe e "groupsPage.deletionWorkerError")

unfoldable pub remove_worker_chosen : GroupsPage → Option WorkerItem → Handler
remove_worker_chosen c none = skip
remove_worker_chosen c (some worker) = do
  modify (λ s. record s { delete_loading = true })
  r ← call (remove_worker worker.guid)
  worker_removed c worker r
  modify (λ s. record s { delete_loading = false })

unfoldable pub remove_worker_confirmation : GroupsPage → Handler
remove_worker_confirmation c = remove_worker_chosen c c.deleting_worker

-- `item.guid === worker.guid ? { ...item, group: newGroupId } : item`
unfoldable pub with_group : Text → Option ℕ → WorkerItem → WorkerItem
with_group guid group item = if text_beq item.guid guid then record item { group = group } else item

unfoldable pub worker_group_changed : Text → Option ℕ → Outcome (Unit {0}) → Handler
worker_group_changed guid group (fulfilled _) = do
  modify (λ s. record s { workers = map (with_group guid group) s.workers })
  show_message success (translated "groupsPage.workerGroupUpdated" [])
worker_group_changed guid group (rejected e) =
    show_message failure (describe e "groupsPage.workerGroupUpdateError")

-- `onChange` of the group select in a worker's row; the cleared select gives `none`.
unfoldable pub change_worker_group : WorkerItem → Option ℕ → Handler
change_worker_group worker group = do
  r ← call (update_worker worker.guid group)
  worker_group_changed worker.guid group r
