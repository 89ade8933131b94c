-- ===== src/Home/View.antt =====
-- What `HomePage` shows of its state: the figures, the cards and where their buttons go. Colours,
-- icons and sizes are left out.
use split_proxy.Base.{
  ℕ, Bool, true, false, not, ◌&&◌, ◌||◌, Text, String, Option, none, some, List, [], ◌∷◌, map,
  length, ltb, nat_beq, if◌then◌else◌,
}
use split_proxy.Api.{GroupItem, WorkerItem, AppConfig}
use split_proxy.Text.{codes, string_of_nat}
use split_proxy.Home.Dashboard.{HomePage, ConfigContext}
use split_proxy.Home.Summary.{
  online_workers, offline_workers, groups_with_problems, recent_workers, take, group_of,
  get_group_name,
}
use split_proxy.Home.Doubles.{percent}

-- `"—"`
abbrev pub dash : Text
dash = 0x2014 ∷ []

-- `value` is `none` while the page loads, and `online_of` is the total in `/ total online`.
pub record StatCard : Type 0 where
  pub title : String
  pub value : Option ℕ
  pub online_of : Option ℕ
  pub destination : Text

abbrev pub unless : {A : Type 0} → Bool → A → Option A
unless true a = none
unless false a = some a

unfoldable pub stat_card : Bool → String → ℕ → Option ℕ → Text → StatCard
stat_card loading title value online_of destination = record {
  title = title;
  value = unless loading value;
  online_of = online_of;
  destination = destination;
}

-- `loading || configLoading`
unfoldable pub page_loading : ConfigContext → HomePage → Bool
page_loading c s = s.loading || c.loading

unfoldable pub stat_cards : ConfigContext → HomePage → List StatCard
stat_cards c s =
    let card = stat_card (page_loading c s) in
    card "homePage.workers" (online_workers s.workers) (some s.worker_count) (codes "/groups")
    ∷ card "homePage.groups" (length s.groups) none (codes "/groups")
    ∷ card "homePage.proxies" s.proxy_count none (codes "/proxies")
    ∷ card "homePage.domains" s.domain_count none (codes "/splitting?tab=domains")
    ∷ card "homePage.cidrs" s.cidr_count none (codes "/splitting?tab=cidrs")
    ∷ card "homePage.admins" s.admin_count none (codes "/users")
    ∷ []

-- `group.workers > 0 && group.offline === 0`
unfoldable pub is_healthy : GroupItem → Bool
is_healthy group = ltb 0 group.workers && nat_beq group.offline 0

pub record GroupRow : Type 0 where
  pub name : Text
  pub healthy : Bool
  pub online : ℕ
  pub total : ℕ
  pub percentage : ℕ

-- A card is a skeleton while the page loads, and may have nothing to show.
pub data Card (A : Type 0) : Type 0 where
  skeleton : Card A
  empty : String → Card A
  filled : List A → Card A

unfoldable pub group_row : GroupItem → GroupRow
group_row group = record {
  name = group.group_name;
  healthy = is_healthy group;
  online = group.online;
  total = group.workers;
  percentage = percent group.online group.workers;
}

unfoldable pub worker_groups : ConfigContext → HomePage → Card GroupRow
worker_groups c s =
    if page_loading c s
    then skeleton
    else elim s.groups [ [] ↦ empty "homePage.noGroups" | g ∷ gs ↦ filled (map group_row (g ∷ gs)) ]

-- `type` of an alert.
pub data Severity : Type 0 where
  severe mild : Severity

pub data Alert : Type 0 where
  no_problems : Alert
  workers_offline : ℕ → Alert
  empty_group : Severity → Text → Alert

unfoldable pub group_alert : GroupItem → Alert
group_alert group = empty_group (if nat_beq group.online 0 then severe else mild) group.group_name

unfoldable pub offline_alert : ℕ → List Alert → List Alert
offline_alert offline rest = if ltb 0 offline then workers_offline offline ∷ rest else rest

-- The card of what needs attention.
unfoldable pub attention : ConfigContext → HomePage → Card Alert
attention c s =
    let offline = offline_workers s.workers in
    let problems = groups_with_problems s.groups in
    if page_loading c s
    then skeleton
    else if ltb 0 offline || ltb 0 (length problems)
    then filled (offline_alert offline (map group_alert (take 3 problems)))
    else filled (no_problems ∷ [])

abbrev pub configured_name : Option AppConfig → Option Text
configured_name none = none
configured_name (some config) = some config.default_group_name

abbrev pub default_text : Option ℕ → Text
default_text none = dash
default_text (some id) = string_of_nat id

-- `defaultRouteGroup?.group_name ?? config?.default_group_name ?? ...`
unfoldable pub default_route_name : ConfigContext → HomePage → Text
default_route_name c s = elim (group_of s.default_route s.groups) [
  | some group ↦ group.group_name
  | none ↦ elim (configured_name c.config) [
    | some name ↦ name
    | none ↦ default_text s.default_route
  ]
]

abbrev is_none : Option ℕ → Bool
is_none none = true
is_none (some id) = false

-- The warning that the default route is not known.
unfoldable pub route_unknown : ConfigContext → HomePage → Bool
route_unknown c s = is_none s.default_route && not (page_loading c s)

pub record WorkerRow : Type 0 where
  pub address : Text
  pub group_name : Text
  pub online : Bool

unfoldable pub worker_row : List GroupItem → WorkerItem → WorkerRow
worker_row groups worker = record {
  address = worker.ip_address;
  group_name = get_group_name dash worker.group groups;
  online = worker.online;
}

unfoldable pub recent_card : ConfigContext → HomePage → Card WorkerRow
recent_card c s = if page_loading c s then skeleton else elim (recent_workers s.workers) [
  | [] ↦ empty "homePage.noWorkers"
  | w ∷ ws ↦ filled (map (worker_row s.groups) (w ∷ ws))
]

-- The card of all workers: how many are online and offline, and the share of those online.
pub record Availability : Type 0 where
  pub online : ℕ
  pub offline : ℕ
  pub availability : ℕ

unfoldable pub availability_card : ConfigContext → HomePage → Option Availability
availability_card c s =
    if not (page_loading c s) && ltb 0 s.worker_count
    then some (record {
      online = online_workers s.workers;
      offline = offline_workers s.workers;
      availability = percent (online_workers s.workers) s.worker_count;
    })
    else none

-- Where the buttons of the cards go: three `viewAll`, the routing card, the quick actions.
unfoldable pub button_links : List Text
button_links =
    codes "/groups"
    ∷ codes "/splitting"
    ∷ codes "/groups/new"
    ∷ codes "/proxies/new"
    ∷ codes "/splitting?tab=domains"
    ∷ codes "/splitting?tab=cidrs"
    ∷ []
