-- ===== src/Splitting/Domains/Handlers.antt =====
-- The domain handlers of `SplittingPage`. The argument `c` is the state that the handler's closure
-- captured at its render; setters act on the state at the time of the call.
use split_proxy.Base.{
  ℕ, pos, ◌-ℤ◌, ltb_ℤ, beq_ℤ, Bool, true, false, not, ◌&&◌, Text, text_beq, Option, none, some,
  List, [], ◌∷◌, ◌++◌, map, filter, flat_map, length, select, count_true, find, is_truthy, nat_beq,
  if◌then◌else◌,
}
use split_proxy.Api.{
  DomainRule, Paginated, get_list_domains, add_domains, update_domain, delete_domain, Outcome,
  fulfilled, rejected,
}
use split_proxy.Script.{
  Script, skip, modify, show_message, call, all_settled, confirm_then, ◌>>=◌, ◌>>◌, success,
  failure, translated, describe, statuses,
}
use split_proxy.Text.{codes, trim, lines}
use split_proxy.Splitting.Settings.{group_param, report_group_change, report_deletion}
use split_proxy.Splitting.Validation.{Unicode, is_valid_domain}
use split_proxy.Splitting.Domains.State.{DomainsTab}

abbrev pub Handler : Type 0
Handler = Script DomainsTab (Unit {0})

-- The debounced effect, when its timer fires.
unfoldable pub search_debounced : DomainsTab → Handler
search_debounced c = do
  modify (λ s. record s { domain_search = trim c.domain_search_input })
  modify (λ s. record s { domain_page = pos 1 })

unfoldable pub domains_loaded : Outcome (Paginated DomainRule) → Handler
domains_loaded (fulfilled response) = do
  modify (λ s. record s { domains = response.results })
  modify (λ s. record s { domain_total = response.count })
domains_loaded (rejected e) = show_message failure (describe e "routingPage.domainsNotLoaded")

unfoldable pub load_domains : DomainsTab → Handler
load_domains c = do
  modify (λ s. record s { loading_domains = true })
  response ← call (
      get_list_domains (record {
        page = some c.domain_page;
        page_size = some c.domain_page_size;
        search = some c.domain_search;
        group = group_param c.domain_group_filter;
      }))
  domains_loaded response
  modify (λ s. record s { loading_domains = false })

-- The trimmed lines of the text area that are not empty.
unfoldable pub entered_patterns : Text → List Text
entered_patterns text = filter (λ p. not (nat_beq (length p) 0)) (map trim (lines text))

unfoldable pub with_subdomains : Bool → List Text → List Text
with_subdomains include patterns =
    if include then flat_map (λ p. p ∷ (codes "*." ++ p) ∷ []) patterns else patterns

unfoldable pub domains_added : DomainsTab → Outcome (Unit {0}) → Handler
domains_added c (fulfilled _) = do
  show_message success (translated "routingPage.domainAdded" [])
  modify (λ s. record s { new_domains = [] })
  modify (λ s. record s { domain_group = none })
  modify (λ s. record s { include_subdomains = false })
  modify (λ s. record s { domain_page = pos 1 })
  if beq_ℤ c.domain_page (pos 1) then load_domains c else skip
domains_added c (rejected e) = show_message failure (describe e "routingPage.domainAddError")

unfoldable pub submit_domains : DomainsTab → List Text → Option ℕ → Handler
submit_domains c patterns none = show_message failure (translated "routingPage.selectGroup" [])
submit_domains c patterns (some group) = do
  modify (λ s. record s { adding_domain = true })
  r ← call (add_domains (with_subdomains c.include_subdomains patterns) group)
  domains_added c r
  modify (λ s. record s { adding_domain = false })

unfoldable pub handle_add_domains : Unicode → DomainsTab → Handler
handle_add_domains u c =
    let patterns = entered_patterns c.new_domains in
    let invalid = find (λ p. not (is_valid_domain u p)) patterns in
    if nat_beq (length patterns) 0
    then show_message failure (translated "routingPage.invalidDomains" [])
    else if is_truthy invalid
    then show_message failure (translated "routingPage.invalidDomains" [])
    else submit_domains c patterns c.domain_group

-- `item.pattern === pattern ? { ...item, group } : item`
unfoldable pub with_group : Text → ℕ → DomainRule → DomainRule
with_group pattern group item =
    if text_beq item.pattern pattern then record item { group = some group } else item

unfoldable pub domain_group_changed : Text → ℕ → Outcome (Unit {0}) → Handler
domain_group_changed pattern group (fulfilled _) = do
  modify (λ s. record s { domains = map (with_group pattern group) s.domains })
  show_message success (translated "routingPage.domainGroupUpdated" [])
domain_group_changed pattern group (rejected e) =
    show_message failure (describe e "routingPage.domainGroupUpdateError")

unfoldable pub change_domain_group : Text → Option ℕ → Handler
change_domain_group pattern none = skip
change_domain_group pattern (some group) = do
  r ← call (update_domain pattern group)
  domain_group_changed pattern group r

unfoldable pub domain_removed : DomainsTab → Outcome (Unit {0}) → Handler
domain_removed c (fulfilled _) = do
  show_message success (translated "routingPage.domainDeleted" [])
  if nat_beq (length c.domains) 1 && ltb_ℤ (pos 1) c.domain_page
      then modify (λ s. record s { domain_page = s.domain_page -ℤ pos 1 })
      else load_domains c
domain_removed c (rejected e) = show_message failure (describe e "routingPage.domainDeleteError")

unfoldable pub remove_domain : DomainsTab → Text → Handler
remove_domain c pattern = do
  modify (λ s. record s { deleting_domain = some pattern })
  r ← call (delete_domain pattern)
  domain_removed c r
  modify (λ s. record s { deleting_domain = none })

unfoldable pub selected_domains_changed : DomainsTab → List Bool → Handler
selected_domains_changed c oks = do
  modify (λ s. record s { bulk_domain_loading = false })
  modify (λ s. record s { selected_domain_patterns = [] })
  modify (λ s. record s { bulk_domain_group = none })
  load_domains c
  report_group_change (count_true oks) (length oks)

unfoldable pub change_domains_to : DomainsTab → Option ℕ → Handler
change_domains_to c none = skip
change_domains_to c (some group) =
    if nat_beq (length c.selected_domain_patterns) 0 then skip else do
      modify (λ s. record s { bulk_domain_loading = true })
      let calls = map (λ pattern. update_domain pattern group) c.selected_domain_patterns
      results ← all_settled calls
      selected_domains_changed c (statuses calls results)

unfoldable pub change_selected_domains_group : DomainsTab → Handler
change_selected_domains_group c = change_domains_to c c.bulk_domain_group

unfoldable pub selected_domains_deleted : DomainsTab → List Bool → Handler
selected_domains_deleted c oks = do
  let failed_keys = select (map not oks) c.selected_domain_patterns
  modify (λ s. record s { bulk_domain_loading = false })
  modify (λ s. record s { selected_domain_patterns = failed_keys })
  load_domains c
  report_deletion (count_true oks) (length oks)

-- `onOk` of the dialog below.
unfoldable pub delete_confirmed : DomainsTab → Handler
delete_confirmed c = do
  modify (λ s. record s { bulk_domain_loading = true })
  results ← all_settled (map delete_domain c.selected_domain_patterns)
  selected_domains_deleted c (statuses (map delete_domain c.selected_domain_patterns) results)

unfoldable pub delete_selected_domains : DomainsTab → Handler
delete_selected_domains c =
    if nat_beq (length c.selected_domain_patterns) 0
    then skip
    else confirm_then
        (record {
          title = "routingPage.bulkDeleteTitle";
          content = "routingPage.bulkDeleteConfirm";
          count = some (length c.selected_domain_patterns);
          ok_text = "routingPage.bulkDelete";
          cancel_text = "common.cancel";
        })
        (delete_confirmed c)
