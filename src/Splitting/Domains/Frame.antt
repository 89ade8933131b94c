-- ===== src/Splitting/Domains/Frame.antt =====
-- What a reload leaves alone: every predicate on the state that does not read the table's rows,
-- its total and the loading flag.
use split_proxy.Base.{ℕ, Bool, List}
use split_proxy.Api.{DomainRule, Paginated, Outcome, fulfilled, rejected}
use split_proxy.Script.Keeps.{Keeps, Keeps-modify, keeping}
use split_proxy.Splitting.Settings.{report_group_change, report_deletion}
use split_proxy.Splitting.Domains.{DomainsTab, domains_loaded, load_domains}

pub record Ignores (I : DomainsTab → Type 0) : Type 0 where
  pub on_loading : (b : Bool) (s : DomainsTab) → I s → I (record s { loading_domains = b })
  pub on_domains : (r : List DomainRule) (s : DomainsTab) → I s → I (record s { domains = r })
  pub on_total : (n : ℕ) (s : DomainsTab) → I s → I (record s { domain_total = n })

module _ {I : DomainsTab → Type 0} (ignores : Ignores I) where
  domains_loaded-Keeps : (o : Outcome (Paginated DomainRule)) → Keeps I (domains_loaded o)
  unfolding domains_loaded
  domains_loaded-Keeps (fulfilled r) =
      search (keeping, Keeps-modify, ignores.on_domains r.results, ignores.on_total r.count)
  domains_loaded-Keeps (rejected e) = search keeping

  pub load_domains-Keeps : (c : DomainsTab) → Keeps I (load_domains c)
  unfolding load_domains
  load_domains-Keeps c = search (keeping, ignores.on_loading, domains_loaded-Keeps) depth 8

pub report_group_change-Keeps :
    {I : DomainsTab → Type 0} (m n : ℕ) → Keeps I (report_group_change m n)
unfolding report_group_change
report_group_change-Keeps m n = search keeping

pub report_deletion-Keeps : {I : DomainsTab → Type 0} (m n : ℕ) → Keeps I (report_deletion m n)
unfolding report_deletion
report_deletion-Keeps m n = search keeping
