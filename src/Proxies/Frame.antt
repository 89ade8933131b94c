-- ===== src/Proxies/Frame.antt =====
-- What a reload leaves alone: every predicate on the state that does not read the table's rows,
-- its total and the loading flag.
use split_proxy.Base.{ℕ, Bool, List}
use split_proxy.Api.{ProxyItem, Paginated, Outcome, fulfilled, rejected}
use split_proxy.Script.Keeps.{Keeps, Keeps-modify, keeping}
use split_proxy.Proxies.{ProxiesPage, loaded, load_proxies, reload, report_bulk}

pub record Ignores (I : ProxiesPage → Type 0) : Type 0 where
  pub on_loading : (b : Bool) (s : ProxiesPage) → I s → I (record s { loading = b })
  pub on_proxies : (r : List ProxyItem) (s : ProxiesPage) → I s → I (record s { proxies = r })
  pub on_total : (n : ℕ) (s : ProxiesPage) → I s → I (record s { total = n })

module _ {I : ProxiesPage → Type 0} (ignores : Ignores I) where
  loaded-Keeps : (o : Outcome (Paginated ProxyItem)) → Keeps I (loaded o)
  unfolding loaded
  loaded-Keeps (fulfilled r) =
      search (keeping, Keeps-modify, ignores.on_proxies r.results, ignores.on_total r.count)
  loaded-Keeps (rejected e) = search keeping

  pub load_proxies-Keeps : (c : ProxiesPage) → Keeps I (load_proxies c)
  unfolding load_proxies
  load_proxies-Keeps c = search (keeping, ignores.on_loading, loaded-Keeps) depth 8

  pub reload-Keeps : (c : ProxiesPage) → Keeps I (reload c)
  unfolding reload
  reload-Keeps c = search (keeping, load_proxies-Keeps)

pub report_bulk-Keeps : {I : ProxiesPage → Type 0} (m n : ℕ) → Keeps I (report_bulk m n)
unfolding report_bulk
report_bulk-Keeps m n = search keeping
