-- ===== src/Proxies/View.antt =====
-- What the rendered page lets its user do: the inputs, when they are enabled, and the handler that
-- each one starts. The effects that load the page and that end the debounce are inputs too.
use split_proxy.Base.{ℕ, ◌≤◌, ◌<◌, ◌≡◌, ◌≢◌, false, Text, none, some, List, ◌++◌, length}
use split_proxy.Api.{ProxyItem}
use split_proxy.Script.{modify, go}
use split_proxy.Text.{codes, string_of_nat}
use split_proxy.Proxies.State.{ProxiesPage}
use split_proxy.Proxies.Handlers.{
  Handler, search_debounced, reload, clear_selection, handle_search_change, handle_page_change,
  remove, confirm_bulk_remove,
}

pub data Input : Type 0 where
  load_effect debounce_timer : Input
  type_search : Text → Input
  change_page : ℕ → ℕ → Input
  change_selection : List ℕ → Input
  click_add click_clear_selection click_bulk_delete : Input
  click_edit click_delete : ProxyItem → Input
  cancel_delete confirm_delete : Input

-- The table's pagination offers pages and page sizes from 1 on. A button that is disabled or shows
-- that it is loading takes no click, and the footer is shown only over a selection.
abbrev pub Enabled : ProxiesPage → Input → Type 0
Enabled c (change_page page size) = (1 ≤ page) × (1 ≤ size)
Enabled c (change_selection keys) = c.bulk_delete_loading ≡ false
Enabled c click_clear_selection = (0 < length c.selected_row_keys) × (c.bulk_delete_loading ≡ false)
Enabled c click_bulk_delete = (0 < length c.selected_row_keys) × (c.bulk_delete_loading ≡ false)
Enabled c cancel_delete = c.deleting_proxy ≢ none
Enabled c confirm_delete = (c.deleting_proxy ≢ none) × (c.delete_loading ≡ false)
Enabled c _ = Unit

unfoldable pub respond : ProxiesPage → Input → Handler
respond c load_effect = reload c
respond c debounce_timer = search_debounced c
respond c (type_search value) = handle_search_change value
respond c (change_page page size) = handle_page_change c page size
respond c (change_selection keys) = modify (λ s. record s { selected_row_keys = keys })
respond c click_add = go (codes "/proxies/new") false
respond c click_clear_selection = clear_selection
respond c click_bulk_delete = confirm_bulk_remove c
respond c (click_edit item) =
    go (codes "/proxies/" ++ (string_of_nat item.id ++ codes "/edit")) false
respond c (click_delete item) = modify (λ s. record s { deleting_proxy = some item })
respond c cancel_delete = modify (λ s. record s { deleting_proxy = none })
respond c confirm_delete = remove c

pub data Starts (c : ProxiesPage) : Handler → Type 0 where
  by : (i : Input) → Enabled c i → Starts c (respond c i)
