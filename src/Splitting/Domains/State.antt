-- ===== src/Splitting/Domains/State.antt =====
-- The `useState` values of `SplittingPage` that its domain handlers read and set. The page number
-- is signed, since one handler lowers it.
use split_proxy.Base.{ℕ, ℤ, pos, Bool, true, false, Text, Option, none, List, []}
use split_proxy.Api.{DomainRule}
use split_proxy.Splitting.Settings.{default_route_page_size, GroupFilter, everything}

pub record DomainsTab : Type 0 where
  pub domains : List DomainRule
  pub domain_page : ℤ
  pub domain_page_size : ℕ
  pub domain_total : ℕ
  pub domain_group_filter : GroupFilter
  pub selected_domain_patterns : List Text
  pub bulk_domain_group : Option ℕ
  pub bulk_domain_loading : Bool
  pub domain_search_input : Text
  pub domain_search : Text
  pub loading_domains : Bool
  pub new_domains : Text
  pub domain_group : Option ℕ
  pub include_subdomains : Bool
  pub adding_domain : Bool
  pub deleting_domain : Option Text

abbrev pub initial : DomainsTab
initial = record {
  domains = [];
  domain_page = pos 1;
  domain_page_size = default_route_page_size;
  domain_total = 0;
  domain_group_filter = everything;
  selected_domain_patterns = [];
  bulk_domain_group = none;
  bulk_domain_loading = false;
  domain_search_input = [];
  domain_search = [];
  loading_domains = true;
  new_domains = [];
  domain_group = none;
  include_subdomains = false;
  adding_domain = false;
  deleting_domain = none;
}
