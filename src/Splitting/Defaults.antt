-- ===== src/Splitting/Defaults.antt =====
-- The groups and the default route of `SplittingPage`: state, handlers and the options that the
-- page's selects offer.
use split_proxy.Base.{ℕ, Bool, true, false, Text, Option, none, some, List, [], ◌∷◌, map}
use split_proxy.Api.{
  GroupItem, DefaultRoute, AppConfig, Paginated, get_groups, get_default_route,
  update_default_route, Outcome, fulfilled, rejected,
}
use split_proxy.Script.{
  Script, modify, show_message, call, ◌>>=◌, ◌>>◌, success, failure, translated, describe,
}
use split_proxy.Splitting.Settings.{GroupFilter, everything, of_group}

pub record DefaultsTab : Type 0 where
  pub groups : List GroupItem
  pub loading_groups : Bool
  pub default_route : Option ℕ
  pub updating_default_route : Bool

abbrev pub initial : DefaultsTab
initial = record {
  groups = [];
  loading_groups = true;
  default_route = none;
  updating_default_route = false;
}

abbrev pub Handler : Type 0
Handler = Script DefaultsTab (Unit {0})

-- An option of a select, with its label; `none` is a label that is `undefined`.
pub record SelectOption (A : Type 0) : Type 0 where
  pub value : A
  pub label : Option Text

unfoldable pub group_options : List GroupItem → List (SelectOption ℕ)
group_options groups =
    map (λ (group : GroupItem). record { value = group.id; label = some group.group_name }) groups

-- `config?.default_group_name`
abbrev pub default_label : Option AppConfig → Option Text
default_label none = none
default_label (some config) = some config.default_group_name

-- The value 0 stands for the default group. The source computes the list when the groups change,
-- with the configuration of that moment.
unfoldable pub default_route_options : Option AppConfig → List GroupItem → List (SelectOption ℕ)
default_route_options config groups =
    record { value = 0; label = default_label config } ∷ group_options groups

unfoldable pub group_filter_options :
    Text → Option AppConfig → List GroupItem → List (SelectOption GroupFilter)
group_filter_options all_groups config groups =
    record { value = everything; label = some all_groups }
    ∷ map (λ (o : SelectOption ℕ). record { value = of_group o.value; label = o.label })
        (default_route_options config groups)

unfoldable pub groups_loaded : Outcome (Paginated GroupItem) → Handler
groups_loaded (fulfilled response) = modify (λ s. record s { groups = response.results })
groups_loaded (rejected e) = show_message failure (describe e "routingPage.groupsNotLoaded")

unfoldable pub load_groups : Handler
load_groups = do
  modify (λ s. record s { loading_groups = true })
  r ← call get_groups
  groups_loaded r
  modify (λ s. record s { loading_groups = false })

unfoldable pub default_route_loaded : Outcome DefaultRoute → Handler
default_route_loaded (fulfilled response) =
    modify (λ s. record s { default_route = some response.worker_group })
default_route_loaded (rejected e) =
    show_message failure (describe e "routingPage.defaultRouteNotLoaded")

unfoldable pub load_default_route : Handler
load_default_route = do
  modify (λ s. record s { updating_default_route = true })
  r ← call get_default_route
  default_route_loaded r
  modify (λ s. record s { updating_default_route = false })

unfoldable pub default_route_changed : Outcome DefaultRoute → Handler
default_route_changed (fulfilled response) = do
  modify (λ s. record s { default_route = some response.worker_group })
  show_message success (translated "routingPage.defaultRouteUpdated" [])
default_route_changed (rejected e) =
    show_message failure (describe e "routingPage.defaultRouteUpdateError")

unfoldable pub change_default_route : ℕ → Handler
change_default_route worker_group = do
  modify (λ s. record s { updating_default_route = true })
  r ← call (update_default_route worker_group)
  default_route_changed r
  modify (λ s. record s { updating_default_route = false })
