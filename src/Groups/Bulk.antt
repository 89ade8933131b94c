-- ===== src/Groups/Bulk.antt =====
-- The bulk actions on the selected workers of `GroupsPage`.
use Prim.Native.Nat.{max}
use split_proxy.Base.{
  ℕ, ◌+◌, ◌-◌, ◌/◌, Bool, true, false, not, ◌||◌, Text, text_beq, Option, none, some, List, [], ◌∷◌,
  map, filter, select, any, length, ltb, nat_beq, if◌then◌else◌,
}
use split_proxy.Api.{WorkerItem, remove_worker, update_worker}
use split_proxy.Script.{
  skip, modify, show_message, all_settled, confirm_then, statuses, ◌>>=◌, ◌>>◌, success, warning,
  translated,
}
use split_proxy.Groups.State.{GroupsPage, BulkGroupValue, to_group, to_none}
use split_proxy.Groups.Handlers.{Handler, load_workers}

-- `bulkGroup === "__none__" ? null : bulkGroup`
unfoldable pub bulk_group_id : BulkGroupValue → Option ℕ
bulk_group_id to_none = none
bulk_group_id (to_group g) = some g

-- `results[guids.indexOf(guid)].status === "fulfilled"`, and false where the index is -1.
unfoldable pub updated : List Text → List Bool → Text → Bool
updated [] oks guid = false
updated (g ∷ guids) [] guid = false
updated (g ∷ guids) (ok ∷ oks) guid = if text_beq g guid then ok else updated guids oks guid

-- The `map` over the rows: a worker changes if its own request was fulfilled.
unfoldable pub regroup : List Text → List Bool → Option ℕ → WorkerItem → WorkerItem
regroup guids oks group worker =
    if updated guids oks worker.guid then record worker { group = group } else worker

-- `prev.filter((guid) => !removed.includes(guid))`
unfoldable pub without : List Text → List Text → List Text
without removed guids = filter (λ guid. not (any (λ g. text_beq g guid) removed)) guids

unfoldable pub report_bulk_group : ℕ → ℕ → Handler
report_bulk_group succeeded failed =
    if nat_beq failed 0
    then show_message success (translated "groupsPage.bulkGroupUpdated" (("count", succeeded) ∷ []))
    else show_message warning (
        translated "groupsPage.bulkGroupPartial"
          (("succeeded", succeeded) ∷ ("failed", failed) ∷ []))

unfoldable pub bulk_group_updated : GroupsPage → Option ℕ → List Bool → Handler
bulk_group_updated c group oks = do
  let guids = c.selected_worker_guids
  let succeeded_guids = select oks guids
  let succeeded = length succeeded_guids
  modify (λ s. record s { workers = map (regroup guids oks group) s.workers })
  modify (λ s. record s { selected_worker_guids = without succeeded_guids s.selected_worker_guids })
  modify (λ s. record s { bulk_group = none })
  report_bulk_group succeeded (length oks - succeeded)
  load_workers c

unfoldable pub bulk_update_to : GroupsPage → Option BulkGroupValue → Handler
bulk_update_to c none = skip
bulk_update_to c (some value) =
    if nat_beq (length c.selected_worker_guids) 0 || c.bulk_loading then skip else do
      modify (λ s. record s { bulk_loading = true })
      let calls = map (λ guid. update_worker guid (bulk_group_id value)) c.selected_worker_guids
      results ← all_settled calls
      bulk_group_updated c (bulk_group_id value) (statuses calls results)
      modify (λ s. record s { bulk_loading = false })

unfoldable pub bulk_update_group : GroupsPage → Handler
bulk_update_group c = bulk_update_to c c.bulk_group

unfoldable pub report_bulk_deletion : ℕ → ℕ → Handler
report_bulk_deletion succeeded failed =
    if nat_beq failed 0
    then show_message success
        (translated "groupsPage.bulkWorkersDeleted" (("count", succeeded) ∷ []))
    else show_message warning (
        translated "groupsPage.bulkDeletePartial"
          (("succeeded", succeeded) ∷ ("failed", failed) ∷ []))

-- `Math.max(1, Math.ceil(Math.max(0, total - removed) / pageSize))` for a positive page size.
unfoldable pub last_page : ℕ → ℕ → ℕ → ℕ
last_page total removed page_size = max 1 ((total - removed + page_size - 1) / page_size)

unfoldable pub step_back : GroupsPage → ℕ → Handler
step_back c removed =
    let last = last_page c.total_workers removed c.page_size in
    if ltb last c.current_page
    then modify (λ s. record s { current_page = last })
    else load_workers c

unfoldable pub drop_from_selection : List Text → Handler
drop_from_selection deleted =
    if ltb 0 (length deleted)
    then modify (λ s. record s { selected_worker_guids = without deleted s.selected_worker_guids })
    else skip

unfoldable pub workers_deleted : GroupsPage → List Bool → Handler
workers_deleted c oks = do
  let deleted_guids = select oks c.selected_worker_guids
  let succeeded = length deleted_guids
  drop_from_selection deleted_guids
  report_bulk_deletion succeeded (length oks - succeeded)
  step_back c succeeded

-- `onOk` of the dialog below.
unfoldable pub delete_confirmed : GroupsPage → Handler
delete_confirmed c = do
  modify (λ s. record s { bulk_loading = true })
  results ← all_settled (map remove_worker c.selected_worker_guids)
  workers_deleted c (statuses (map remove_worker c.selected_worker_guids) results)
  modify (λ s. record s { bulk_loading = false })

unfoldable pub bulk_delete_workers : GroupsPage → Handler
bulk_delete_workers c =
    if nat_beq (length c.selected_worker_guids) 0 || c.bulk_loading
    then skip
    else confirm_then
        (record {
          title = "groupsPage.bulkDeleteTitle";
          content = "groupsPage.bulkDeleteConfirm";
          count = some (length c.selected_worker_guids);
          ok_text = "common.delete";
          cancel_text = "common.cancel";
        })
        (delete_confirmed c)
