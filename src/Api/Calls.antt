-- ===== src/Api/Calls.antt =====
-- One constructor for each exported function of admin/front/src/shared/api, with its arguments,
-- and the type that its promise resolves to.
use split_proxy.Base.{ℕ, ℤ, Text, Option, List, [], ◌∷◌}
use split_proxy.Api.Types.{
  User, UserInput, ProxyItem, ProxyInput, GroupItem, GroupInput, WorkerItem, DomainRule, CidrRule,
  DefaultRoute, AppConfig, Paginated,
}

-- `number | "none"`
pub data RouteGroupFilter : Type 0 where
  group_id : ℕ → RouteGroupFilter
  no_group : RouteGroupFilter

-- `none` is `undefined`.
pub record PaginationParams : Type 0 where
  pub page : Option ℤ
  pub page_size : Option ℕ
  pub search : Option Text
  pub group : Option RouteGroupFilter

pub record ProxyListParams : Type 0 where
  pub page : Option ℕ
  pub page_size : Option ℕ
  pub search : Option Text

pub record WorkerFilters : Type 0 where
  pub guid : Option Text
  pub group : Option RouteGroupFilter
  pub page : Option ℕ
  pub page_size : Option ℕ

pub data ApiCall : Type 0 where
  get_list_domains get_list_cidr : PaginationParams → ApiCall
  add_domains add_cidrs : List Text → ℕ → ApiCall
  update_domain update_cidr : Text → ℕ → ApiCall
  delete_domain delete_cidr : Text → ApiCall
  clear_all_cidrs get_default_route : ApiCall
  update_default_route : ℕ → ApiCall
  get_proxy : ℕ → ApiCall
  get_proxies : ProxyListParams → ApiCall
  create_proxy : ProxyInput → ApiCall
  update_proxy : ℕ → ProxyInput → ApiCall
  remove_proxy : ℕ → ApiCall
  get_workers : WorkerFilters → ApiCall
  get_worker : Text → ApiCall
  update_worker : Text → Option ℕ → ApiCall
  remove_worker : Text → ApiCall
  get_group : ℕ → ApiCall
  get_groups : ApiCall
  create_group : GroupInput → ApiCall
  update_group : ℕ → GroupInput → ApiCall
  remove_group : ℕ → ApiCall
  get_user : ℕ → ApiCall
  get_users : ApiCall
  create_user : UserInput → ApiCall
  update_user : ℕ → UserInput → ApiCall
  remove_user : ℕ → ApiCall
  get_config : ApiCall

-- What a call resolves to where a page reads it.
abbrev pub Answer : ApiCall → Type 0
Answer (get_list_domains _) = Paginated DomainRule
Answer (get_list_cidr _) = Paginated CidrRule
Answer get_default_route = DefaultRoute
Answer (update_default_route _) = DefaultRoute
Answer (get_proxy _) = ProxyItem
Answer (get_proxies _) = Paginated ProxyItem
Answer (get_workers _) = Paginated WorkerItem
Answer (get_worker _) = WorkerItem
Answer (get_group _) = GroupItem
Answer get_groups = Paginated GroupItem
Answer (get_user _) = User
Answer get_users = Paginated User
Answer get_config = AppConfig
Answer _ = Unit

-- What is thrown: an `Error` with its message, or some other value.
pub data Thrown : Type 0 where
  error : Text → Thrown
  other : Thrown

-- How a promise settles.
pub data Outcome (A : Type 0) : Type 0 where
  fulfilled : A → Outcome A
  rejected : Thrown → Outcome A

-- The outcomes of `Promise.allSettled`, in the order of the calls.
abbrev pub Answers : List ApiCall → Type 0
Answers [] = Unit
Answers (q ∷ qs) = Outcome (Answer q) × Answers qs
