-- ===== src/Splitting/DefaultsMessages.antt =====
-- The texts that the loads and the change of the default route show.
use split_proxy.Base.{◌≡◌, ◌⊎◌, inl, inr, ℕ, String, List}
use split_proxy.Api.{GroupItem, DefaultRoute, Paginated, Outcome, fulfilled, rejected}
use split_proxy.Script.Shows.{Shows, showing}
use split_proxy.I18n.Keys.{IsTranslated, is_translated}
use split_proxy.Splitting.Defaults.{
  groups_loaded, load_groups, default_route_loaded, load_default_route, default_route_changed,
  change_default_route,
}

-- The keys of the two errors that have a text in neither language.
abbrev pub IsShownDefault : String → List String → Type 0
IsShownDefault key names =
    IsTranslated key names
    ⊎ ((key ≡ "routingPage.defaultRouteNotLoaded") ⊎ (key ≡ "routingPage.defaultRouteUpdateError"))

groups_loaded-Shows : (o : Outcome (Paginated GroupItem)) → Shows IsShownDefault (groups_loaded o)
unfolding groups_loaded is_translated
groups_loaded-Shows (fulfilled r) = search showing
groups_loaded-Shows (rejected e) = search (showing, inl)

pub load_groups-Shows : Shows IsShownDefault load_groups
unfolding load_groups
load_groups-Shows = search (showing, groups_loaded-Shows) depth 8

default_route_loaded-Shows :
    (o : Outcome DefaultRoute) → Shows IsShownDefault (default_route_loaded o)
unfolding default_route_loaded
default_route_loaded-Shows (fulfilled r) = search showing
default_route_loaded-Shows (rejected e) = search (showing, inl, inr)

pub load_default_route-Shows : Shows IsShownDefault load_default_route
unfolding load_default_route
load_default_route-Shows = search (showing, default_route_loaded-Shows) depth 8

default_route_changed-Shows :
    (o : Outcome DefaultRoute) → Shows IsShownDefault (default_route_changed o)
unfolding default_route_changed is_translated
default_route_changed-Shows (fulfilled r) = search (showing, inl) depth 8
default_route_changed-Shows (rejected e) = search (showing, inl, inr)

pub change_default_route-Shows : (group : ℕ) → Shows IsShownDefault (change_default_route group)
unfolding change_default_route
change_default_route-Shows group = search (showing, default_route_changed-Shows) depth 8
