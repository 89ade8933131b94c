-- ===== src/Splitting/Cidrs/View.antt =====
-- What the cidrs tab lets its user do, and the handler that each input starts. The effects that
-- load the table and that end the debounce are inputs too.
use split_proxy.Base.{
  ℕ, pos, ◌≤◌, ◌<◌, ◌≡◌, ◌≢◌, false, not, Text, Option, none, some, List, [], length, nat_beq,
  if◌then◌else◌, Member,
}
use split_proxy.Api.{CidrRule}
use split_proxy.Script.{modify, ◌>>◌}
use split_proxy.Splitting.Settings.{GroupFilter}
use split_proxy.Splitting.Cidrs.State.{CidrsTab}
use split_proxy.Splitting.Cidrs.Handlers.{
  Handler, search_debounced, load_cidrs, handle_add_cidrs, change_cidr_group, remove_cidr,
  change_selected_cidrs_group, delete_selected_cidrs, handle_clear_all_cidrs,
}

pub data Input : Type 0 where
  load_effect debounce_timer : Input
  type_cidrs type_search : Text → Input
  choose_group choose_bulk_group : Option ℕ → Input
  choose_filter : GroupFilter → Input
  change_selection : List Text → Input
  change_page : ℕ → ℕ → Input
  choose_row_group : CidrRule → Option ℕ → Input
  click_add click_bulk_change click_bulk_delete click_clear_selection click_clear_all : Input
  click_delete : CidrRule → Input

-- The table's pagination offers pages and page sizes from 1 on. A button that is disabled or shows
-- that it is loading takes no click, a row's buttons need the row, and the footer needs a selection.
abbrev pub Enabled : CidrsTab → Input → Type 0
Enabled c (change_page page size) = (1 ≤ page) × (1 ≤ size)
Enabled c (choose_row_group item group) = Member item c.cidrs
Enabled c click_add = c.adding_cidr ≡ false
Enabled c (click_delete item) = Member item c.cidrs × (c.deleting_cidr ≢ some item.cidr)
Enabled c click_bulk_change =
    (0 < length c.selected_cidrs) × (c.bulk_cidr_group ≢ none) × (c.bulk_cidr_loading ≡ false)
Enabled c click_bulk_delete = (0 < length c.selected_cidrs) × (c.bulk_cidr_loading ≡ false)
Enabled c click_clear_all =
    (c.loading_cidrs ≡ false) × (c.adding_cidr ≡ false) × (c.clearing_all_cidrs ≡ false)
Enabled c click_clear_selection = 0 < length c.selected_cidrs
Enabled c _ = Unit

-- `onChange` of the table's pagination.
unfoldable pub page_changed : CidrsTab → ℕ → ℕ → Handler
page_changed c page page_size =
    if not (nat_beq page_size c.cidr_page_size)
    then (do
      modify (λ s. record s { cidr_page_size = page_size })
      modify (λ s. record s { cidr_page = pos 1 }))
    else modify (λ s. record s { cidr_page = pos page })

-- `onChange` of the group filter.
unfoldable pub filter_changed : GroupFilter → Handler
filter_changed value = do
  modify (λ s. record s { cidr_group_filter = value })
  modify (λ s. record s { cidr_page = pos 1 })
  modify (λ s. record s { selected_cidrs = [] })

unfoldable pub respond : CidrsTab → Input → Handler
respond c load_effect = load_cidrs c
respond c debounce_timer = search_debounced c
respond c (type_cidrs value) = modify (λ s. record s { new_cidr = value })
respond c (type_search value) = modify (λ s. record s { cidr_search_input = value })
respond c (choose_group value) = modify (λ s. record s { cidr_group = value })
respond c (choose_bulk_group value) = modify (λ s. record s { bulk_cidr_group = value })
respond c (choose_filter value) = filter_changed value
respond c (change_selection keys) = modify (λ s. record s { selected_cidrs = keys })
respond c (change_page page size) = page_changed c page size
respond c (choose_row_group item value) = change_cidr_group item.cidr value
respond c click_add = handle_add_cidrs c
respond c click_bulk_change = change_selected_cidrs_group c
respond c click_bulk_delete = delete_selected_cidrs c
respond c click_clear_selection = modify (λ s. record s { selected_cidrs = [] })
respond c click_clear_all = handle_clear_all_cidrs c
respond c (click_delete item) = remove_cidr c item.cidr

pub data Starts (c : CidrsTab) : Handler → Type 0 where
  by : (i : Input) → Enabled c i → Starts c (respond c i)
