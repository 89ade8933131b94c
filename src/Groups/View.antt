-- ===== src/Groups/View.antt =====
-- What the rendered page lets its user do, and the handler that each input starts.
use split_proxy.Base.{
  ℕ, ◌≤◌, ◌<◌, ◌≡◌, ◌≢◌, false, not, Text, Option, none, some, List, [], ◌++◌, length, nat_beq,
  if◌then◌else◌, Member,
}
use split_proxy.Api.{GroupItem, WorkerItem}
use split_proxy.Script.{modify, go, ◌>>◌}
use split_proxy.Text.{codes, string_of_nat}
use split_proxy.Groups.State.{GroupsPage, WorkerGroupFilter, BulkGroupValue}
use split_proxy.Groups.Handlers.{
  Handler, load_groups, load_workers, remove_group_confirmation, remove_worker_confirmation,
  change_worker_group,
}
use split_proxy.Groups.Bulk.{bulk_update_group, bulk_delete_workers}

pub data Input : Type 0 where
  groups_effect workers_effect : Input
  click_add_group click_bulk_update click_bulk_delete click_clear_selection : Input
  click_edit_group click_delete_group : GroupItem → Input
  click_delete_worker : WorkerItem → Input
  cancel_delete_group confirm_delete_group cancel_delete_worker confirm_delete_worker : Input
  type_search : Text → Input
  choose_filter : WorkerGroupFilter → Input
  choose_row_group : WorkerItem → Option ℕ → Input
  choose_bulk_group : BulkGroupValue → Input
  change_selection : List Text → Input
  change_page : ℕ → ℕ → Input

-- The table's pagination offers pages and page sizes from 1 on. A button that is disabled or shows
-- that it is loading takes no click, a row's controls need the row, a dialog's buttons the dialog,
-- and the footer a selection.
abbrev pub Enabled : GroupsPage → Input → Type 0
Enabled c (change_page page size) = (1 ≤ page) × (1 ≤ size)
Enabled c (click_edit_group group) = Member group c.groups
Enabled c (click_delete_group group) = Member group c.groups
Enabled c (click_delete_worker worker) = Member worker c.workers
Enabled c (choose_row_group worker group) = Member worker c.workers
Enabled c cancel_delete_group = c.deleting_group ≢ none
Enabled c confirm_delete_group = (c.deleting_group ≢ none) × (c.delete_loading ≡ false)
Enabled c cancel_delete_worker = c.deleting_worker ≢ none
Enabled c confirm_delete_worker = (c.deleting_worker ≢ none) × (c.delete_loading ≡ false)
Enabled c click_bulk_update =
    (0 < length c.selected_worker_guids) × (c.bulk_group ≢ none) × (c.bulk_loading ≡ false)
Enabled c click_bulk_delete = (0 < length c.selected_worker_guids) × (c.bulk_loading ≡ false)
Enabled c click_clear_selection = (0 < length c.selected_worker_guids) × (c.bulk_loading ≡ false)
Enabled c _ = Unit

-- `onChange` of the table's pagination.
unfoldable pub page_changed : GroupsPage → ℕ → ℕ → Handler
page_changed c page new_page_size =
    if not (nat_beq new_page_size c.page_size)
    then (do
      modify (λ s. record s { page_size = new_page_size })
      modify (λ s. record s { current_page = 1 }))
    else modify (λ s. record s { current_page = page })

unfoldable pub search_typed : Text → Handler
search_typed value = do
  modify (λ s. record s { worker_search = value })
  modify (λ s. record s { current_page = 1 })
  modify (λ s. record s { selected_worker_guids = [] })

unfoldable pub filter_changed : WorkerGroupFilter → Handler
filter_changed value = do
  modify (λ s. record s { worker_group_filter = value })
  modify (λ s. record s { current_page = 1 })
  modify (λ s. record s { selected_worker_guids = [] })

unfoldable pub respond : GroupsPage → Input → Handler
respond c groups_effect = load_groups
respond c workers_effect = load_workers c
respond c click_add_group = go (codes "/groups/new") false
respond c click_bulk_update = bulk_update_group c
respond c click_bulk_delete = bulk_delete_workers c
respond c click_clear_selection = modify (λ s. record s { selected_worker_guids = [] })
respond c (click_edit_group group) =
    go (codes "/groups/" ++ (string_of_nat group.id ++ codes "/edit")) false
respond c (click_delete_group group) = modify (λ s. record s { deleting_group = some group })
respond c (click_delete_worker worker) = modify (λ s. record s { deleting_worker = some worker })
respond c cancel_delete_group = modify (λ s. record s { deleting_group = none })
respond c confirm_delete_group = remove_group_confirmation c
respond c cancel_delete_worker = modify (λ s. record s { deleting_worker = none })
respond c confirm_delete_worker = remove_worker_confirmation c
respond c (type_search value) = search_typed value
respond c (choose_filter value) = filter_changed value
respond c (choose_row_group worker group) = change_worker_group worker group
respond c (choose_bulk_group value) = modify (λ s. record s { bulk_group = some value })
respond c (change_selection keys) = modify (λ s. record s { selected_worker_guids = keys })
respond c (change_page page size) = page_changed c page size

pub data Starts (c : GroupsPage) : Handler → Type 0 where
  by : (i : Input) → Enabled c i → Starts c (respond c i)
