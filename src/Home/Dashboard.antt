-- ===== src/Home/Dashboard.antt =====
-- The state of `HomePage` and its load, and the load of the configuration.
use split_proxy.Base.{
  ℕ, pos, Bool, true, false, not, Option, none, some, List, [], ◌∷◌, any, if◌then◌else◌,
}
use split_proxy.Api.{
  GroupItem, WorkerItem, ProxyItem, User, DomainRule, CidrRule, DefaultRoute, AppConfig, Paginated,
  ApiCall, Answers, get_groups, get_workers, get_proxies, get_users, get_list_domains,
  get_list_cidr, get_default_route, get_config, Outcome, fulfilled, rejected,
}
use split_proxy.Script.{
  Script, skip, modify, show_message, call, all_settled, statuses, ◌>>=◌, ◌>>◌, warning, translated,
}

pub record HomePage : Type 0 where
  pub groups : List GroupItem
  pub workers : List WorkerItem
  pub worker_count : ℕ
  pub proxy_count : ℕ
  pub admin_count : ℕ
  pub domain_count : ℕ
  pub cidr_count : ℕ
  pub default_route : Option ℕ
  pub loading : Bool

abbrev pub initial : HomePage
initial = record {
  groups = [];
  workers = [];
  worker_count = 0;
  proxy_count = 0;
  admin_count = 0;
  domain_count = 0;
  cidr_count = 0;
  default_route = none;
  loading = true;
}

abbrev pub Handler : Type 0
Handler = Script HomePage (Unit {0})

-- `if (result.status === "fulfilled") set(result.value);`
abbrev pub on_fulfilled : {A : Type 0} → (A → HomePage → HomePage) → Outcome A → Handler
on_fulfilled set (fulfilled a) = modify (set a)
on_fulfilled set (rejected e) = skip

abbrev set_groups : Paginated GroupItem → HomePage → HomePage
set_groups r s = record s { groups = r.results }

abbrev set_workers : Paginated WorkerItem → HomePage → HomePage
set_workers r s = record s { workers = r.results; worker_count = r.count }

abbrev set_proxies : Paginated ProxyItem → HomePage → HomePage
set_proxies r s = record s { proxy_count = r.count }

abbrev set_users : Paginated User → HomePage → HomePage
set_users r s = record s { admin_count = r.count }

abbrev set_domains : Paginated DomainRule → HomePage → HomePage
set_domains r s = record s { domain_count = r.count }

abbrev set_cidrs : Paginated CidrRule → HomePage → HomePage
set_cidrs r s = record s { cidr_count = r.count }

abbrev set_route : DefaultRoute → HomePage → HomePage
set_route r s = record s { default_route = some r.worker_group }

abbrev pub dashboard_calls : List ApiCall
dashboard_calls =
    get_groups
    ∷ get_workers (record { guid = none; group = none; page = none; page_size = none })
    ∷ get_proxies (record { page = none; page_size = none; search = none })
    ∷ get_users
    ∷ get_list_domains
        (record { page = some (pos 1); page_size = some 1; search = none; group = none })
    ∷ get_list_cidr
        (record { page = some (pos 1); page_size = some 1; search = none; group = none })
    ∷ get_default_route
    ∷ []

unfoldable pub dashboard_settled : Answers dashboard_calls → Handler
dashboard_settled os = do
  on_fulfilled set_groups os.0
  on_fulfilled set_workers os.1.0
  on_fulfilled set_proxies os.1.1.0
  on_fulfilled set_users os.1.1.1.0
  on_fulfilled set_domains os.1.1.1.1.0
  on_fulfilled set_cidrs os.1.1.1.1.1.0
  on_fulfilled set_route os.1.1.1.1.1.1.0
  if any not (statuses dashboard_calls os)
      then show_message warning (translated "homePage.loadError" [])
      else skip

unfoldable pub load_dashboard : Handler
load_dashboard = do
  modify (λ s. record s { loading = true })
  results ← all_settled dashboard_calls
  dashboard_settled results
  modify (λ s. record s { loading = false })

-- The context of `ConfigProvider`.
pub record ConfigContext : Type 0 where
  pub config : Option AppConfig
  pub loading : Bool

unfoldable pub config_loaded : Outcome AppConfig → Script ConfigContext (Unit {0})
config_loaded (fulfilled c) = modify (λ s. record s { config = some c })
config_loaded (rejected e) = skip

-- `getConfig().then(setConfig).finally(...)`
unfoldable pub load_config : Script ConfigContext (Unit {0})
load_config = do r ← call get_config; config_loaded r; modify (λ s. record s { loading = false })
