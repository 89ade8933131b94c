-- ===== src/Splitting/Domains/Messages.antt =====
-- The texts that the tab of the domains shows.
use split_proxy.Base.{◌≡◌, ◌⊎◌, inl, inr, refl, ℕ, Bool, Text, String, Option, none, some, List, []}
use split_proxy.Api.{DomainRule, Paginated, Outcome, fulfilled, rejected}
use split_proxy.Script.{Script}
use split_proxy.Script.Shows.{Shows-map, Shows, showing}
use split_proxy.I18n.Keys.{IsTranslated, is_translated}
use split_proxy.Splitting.Messages.{report_group_change-Shows, report_deletion-Shows}
use split_proxy.Splitting.Validation.{Unicode}
use split_proxy.Splitting.Domains.State.{DomainsTab}
use split_proxy.Splitting.Domains.Handlers.{
  domains_loaded, load_domains, domains_added, submit_domains, domain_group_changed,
  change_domain_group, domain_removed, remove_domain, selected_domains_changed, change_domains_to,
  selected_domains_deleted, delete_confirmed, delete_selected_domains, handle_add_domains,
  entered_patterns, search_debounced, Handler, change_selected_domains_group,
}
use split_proxy.Splitting.Domains.View.{
  respond, page_changed, filter_changed, Starts, by, load_effect, debounce_timer, type_domains,
  type_search, choose_group, choose_bulk_group, check_subdomains, choose_filter, change_selection,
  change_page, choose_row_group, click_add, click_bulk_change, click_bulk_delete,
  click_clear_selection, click_delete,
}

domains_loaded-Shows : (o : Outcome (Paginated DomainRule)) → Shows IsTranslated (domains_loaded o)
unfolding domains_loaded is_translated
domains_loaded-Shows (fulfilled r) = search (showing) depth 8
domains_loaded-Shows (rejected e) = search showing

load_domains-Shows : (c : DomainsTab) → Shows IsTranslated (load_domains c)
unfolding load_domains
load_domains-Shows c = search (showing, domains_loaded-Shows) depth 8

domains_added-Shows :
    (c : DomainsTab) (o : Outcome (Unit {0})) → Shows IsTranslated (domains_added c o)
unfolding domains_added is_translated
domains_added-Shows c (fulfilled r) = search (showing, load_domains-Shows) depth 12
domains_added-Shows c (rejected e) = search showing

pub submit_domains-Shows :
    (c : DomainsTab) (entered : List Text) (group : Option ℕ)
    → Shows IsTranslated (submit_domains c entered group)
unfolding submit_domains is_translated
submit_domains-Shows c entered none = search showing
submit_domains-Shows c entered (some group) = search (showing, domains_added-Shows) depth 8

domain_group_changed-Shows :
    (pattern : Text) (group : ℕ) (o : Outcome (Unit {0}))
    → Shows IsTranslated (domain_group_changed pattern group o)
unfolding domain_group_changed is_translated
domain_group_changed-Shows pattern group (fulfilled r) = search (showing) depth 8
domain_group_changed-Shows pattern group (rejected e) = search showing

change_domain_group-Shows :
    (pattern : Text) (group : Option ℕ) → Shows IsTranslated (change_domain_group pattern group)
unfolding change_domain_group
change_domain_group-Shows pattern none = search showing
change_domain_group-Shows pattern (some group) = search (showing, domain_group_changed-Shows)

domain_removed-Shows :
    (c : DomainsTab) (o : Outcome (Unit {0})) → Shows IsTranslated (domain_removed c o)
unfolding domain_removed is_translated
domain_removed-Shows c (fulfilled r) = search (showing, load_domains-Shows) depth 8
domain_removed-Shows c (rejected e) = search showing

remove_domain-Shows :
    (c : DomainsTab) (pattern : Text) → Shows IsTranslated (remove_domain c pattern)
unfolding remove_domain
remove_domain-Shows c pattern = search (showing, domain_removed-Shows) depth 8

selected_domains_changed-Shows :
    (c : DomainsTab) (oks : List Bool) → Shows IsTranslated (selected_domains_changed c oks)
unfolding selected_domains_changed
selected_domains_changed-Shows c oks =
    search (showing, load_domains-Shows, report_group_change-Shows) depth 10

change_domains_to-Shows :
    (c : DomainsTab) (group : Option ℕ) → Shows IsTranslated (change_domains_to c group)
unfolding change_domains_to
change_domains_to-Shows c none = search showing
change_domains_to-Shows c (some group) = search (showing, selected_domains_changed-Shows) depth 8

selected_domains_deleted-Shows :
    (c : DomainsTab) (oks : List Bool) → Shows IsTranslated (selected_domains_deleted c oks)
unfolding selected_domains_deleted
selected_domains_deleted-Shows c oks =
    search (showing, load_domains-Shows, report_deletion-Shows) depth 10

delete_confirmed-Shows : (c : DomainsTab) → Shows IsTranslated (delete_confirmed c)
unfolding delete_confirmed
delete_confirmed-Shows c = search (showing, selected_domains_deleted-Shows) depth 8

delete_selected_domains-Shows : (c : DomainsTab) → Shows IsTranslated (delete_selected_domains c)
unfolding delete_selected_domains is_translated
delete_selected_domains-Shows c = search (showing, delete_confirmed-Shows)

-- The key of the message for patterns that are not valid.
abbrev pub invalid_key : String
invalid_key = "routingPage.invalidDomains"

abbrev pub IsShown : String → List String → Type 0
IsShown key names = IsTranslated key names ⊎ (key ≡ invalid_key)

shown : {S A : Type 0} {m : Script S A} → Shows IsTranslated m → Shows IsShown m
shown h = Shows-map (λ key names t. inl t) h

handle_add_domains-Shows : (u : Unicode) (c : DomainsTab) → Shows IsShown (handle_add_domains u c)
unfolding handle_add_domains
handle_add_domains-Shows u c =
    let p : IsShown invalid_key [] = inr refl in
    let rest = shown (submit_domains-Shows c (entered_patterns c.new_domains) c.domain_group) in
    search (showing, p, rest)

pub Starts-Shows : (u : Unicode) (c : DomainsTab) (h : Handler) → Starts u c h → Shows IsShown h
unfolding respond search_debounced page_changed filter_changed change_selected_domains_group
Starts-Shows u c h (by load_effect e) = shown (load_domains-Shows c)
Starts-Shows u c h (by debounce_timer e) = shown (search (showing) depth 8)
Starts-Shows u c h (by (type_domains value) e) = shown (search showing)
Starts-Shows u c h (by (type_search value) e) = shown (search showing)
Starts-Shows u c h (by (choose_group value) e) = shown (search showing)
Starts-Shows u c h (by (choose_bulk_group value) e) = shown (search showing)
Starts-Shows u c h (by (check_subdomains value) e) = shown (search showing)
Starts-Shows u c h (by (choose_filter value) e) = shown (search (showing) depth 8)
Starts-Shows u c h (by (change_selection keys) e) = shown (search showing)
Starts-Shows u c h (by (change_page page size) e) = shown (search (showing) depth 8)
Starts-Shows u c h (by (choose_row_group item value) e) =
    shown (change_domain_group-Shows item.pattern value)
Starts-Shows u c h (by click_add e) = handle_add_domains-Shows u c
Starts-Shows u c h (by click_bulk_change e) = shown (change_domains_to-Shows c c.bulk_domain_group)
Starts-Shows u c h (by click_bulk_delete e) = shown (delete_selected_domains-Shows c)
Starts-Shows u c h (by click_clear_selection e) = shown (search showing)
Starts-Shows u c h (by (click_delete item) e) = shown (remove_domain-Shows c item.pattern)
