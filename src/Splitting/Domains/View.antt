-- ===== src/Splitting/Domains/View.antt =====
-- What the domains tab lets its user do, and the handler that each input starts. The effects that
-- load the table and that end the debounce are inputs too.
use split_proxy.Base.{
  ℕ, pos, ◌≤◌, ◌<◌, ◌≡◌, ◌≢◌, false, not, Bool, Text, Option, none, some, List, [], length, nat_beq,
  if◌then◌else◌, Member,
}
use split_proxy.Api.{DomainRule}
use split_proxy.Script.{modify, ◌>>◌}
use split_proxy.Splitting.Settings.{GroupFilter}
use split_proxy.Splitting.Validation.{Unicode}
use split_proxy.Splitting.Domains.State.{DomainsTab}
use split_proxy.Splitting.Domains.Handlers.{
  Handler, search_debounced, load_domains, handle_add_domains, change_domain_group, remove_domain,
  change_selected_domains_group, delete_selected_domains,
}

pub data Input : Type 0 where
  load_effect debounce_timer : Input
  type_domains type_search : Text → Input
  choose_group choose_bulk_group : Option ℕ → Input
  check_subdomains : Bool → Input
  choose_filter : GroupFilter → Input
  change_selection : List Text → Input
  change_page : ℕ → ℕ → Input
  choose_row_group : DomainRule → Option ℕ → Input
  click_add click_bulk_change click_bulk_delete click_clear_selection : Input
  click_delete : DomainRule → Input

-- The table's pagination offers pages and page sizes from 1 on. A button that is disabled or shows
-- that it is loading takes no click, a row's buttons need the row, and the footer needs a selection.
abbrev pub Enabled : DomainsTab → Input → Type 0
Enabled c (change_page page size) = (1 ≤ page) × (1 ≤ size)
Enabled c (choose_row_group item group) = Member item c.domains
Enabled c click_add = c.adding_domain ≡ false
Enabled c (click_delete item) = Member item c.domains × (c.deleting_domain ≢ some item.pattern)
Enabled c click_bulk_change =
    (0 < length c.selected_domain_patterns)
    × (c.bulk_domain_group ≢ none)
    × (c.bulk_domain_loading ≡ false)
Enabled c click_bulk_delete =
    (0 < length c.selected_domain_patterns) × (c.bulk_domain_loading ≡ false)
Enabled c click_clear_selection = 0 < length c.selected_domain_patterns
Enabled c _ = Unit

-- `onChange` of the table's pagination.
unfoldable pub page_changed : DomainsTab → ℕ → ℕ → Handler
page_changed c page page_size =
    if not (nat_beq page_size c.domain_page_size)
    then (do
      modify (λ s. record s { domain_page_size = page_size })
      modify (λ s. record s { domain_page = pos 1 }))
    else modify (λ s. record s { domain_page = pos page })

-- `onChange` of the group filter.
unfoldable pub filter_changed : GroupFilter → Handler
filter_changed value = do
  modify (λ s. record s { domain_group_filter = value })
  modify (λ s. record s { domain_page = pos 1 })
  modify (λ s. record s { selected_domain_patterns = [] })

unfoldable pub respond : Unicode → DomainsTab → Input → Handler
respond u c load_effect = load_domains c
respond u c debounce_timer = search_debounced c
respond u c (type_domains value) = modify (λ s. record s { new_domains = value })
respond u c (type_search value) = modify (λ s. record s { domain_search_input = value })
respond u c (choose_group value) = modify (λ s. record s { domain_group = value })
respond u c (choose_bulk_group value) = modify (λ s. record s { bulk_domain_group = value })
respond u c (check_subdomains value) = modify (λ s. record s { include_subdomains = value })
respond u c (choose_filter value) = filter_changed value
respond u c (change_selection keys) = modify (λ s. record s { selected_domain_patterns = keys })
respond u c (change_page page size) = page_changed c page size
respond u c (choose_row_group item value) = change_domain_group item.pattern value
respond u c click_add = handle_add_domains u c
respond u c click_bulk_change = change_selected_domains_group c
respond u c click_bulk_delete = delete_selected_domains c
respond u c click_clear_selection = modify (λ s. record s { selected_domain_patterns = [] })
respond u c (click_delete item) = remove_domain c item.pattern

pub data Starts (u : Unicode) (c : DomainsTab) : Handler → Type 0 where
  by : (i : Input) → Enabled c i → Starts u c (respond u c i)
