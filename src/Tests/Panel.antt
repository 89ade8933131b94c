-- ===== src/Tests/Panel.antt =====
-- A session, the links of the panel and the way back from the login page at concrete inputs.
use split_proxy.Base.{
  ℕ, Text, text_beq, if◌then◌else◌, ◌≡◌, refl, true, false, some, none, List, [], ◌∷◌, ◌++◌, map,
  All,
}
use split_proxy.Text.{codes}
use split_proxy.Api.{other}
use split_proxy.Api.Client.{no_response}
use split_proxy.Auth.{is_authenticated, is_present, protected_route, on_finish, LoginPage, Session}
use split_proxy.Auth.Laws.{Grants}
use split_proxy.Auth.Machine.{Event, log_in, log_out, reload, call, open_path, run, spec_run}
use split_proxy.Auth.Refinement.{Matches, run_refines}
use split_proxy.Home
use split_proxy.Shell.{
  Route, login_page, home_page, users_page, new_user_page, proxies_page, new_proxy_page,
  groups_page, new_group_page, splitting_page, catch_all, Router, visit,
}
use split_proxy.Shell.Links.{
  MatchesPaths, IsPathOf, home_path, users_path, new_user_path, proxies_path, new_proxy_path,
  groups_path, new_group_path, splitting_path, Opens, links-Opens,
}
use split_proxy.Shell.Menu.{menu_items}
use split_proxy.Shell.Return.{login_return, remembered}
use split_proxy.Tests.Dashboard.{a_config, a_home}
use split_proxy.Tests.Session.{server, signed_out, signed_out-Coherent, no_options}

-- A login, a call whose request fails, a visit, a logout and another visit.
abbrev a_session : List (Event ℕ)
a_session =
    log_in server (codes "ann") (codes "pw")
    ∷ call (codes "/worker") no_options (no_response (codes "down"))
    ∷ reload
    ∷ open_path (codes "/users")
    ∷ log_out
    ∷ open_path (codes "/users")
    ∷ []

run_refines_example :
    Matches (run 0 other a_session signed_out) (spec_run 0 other a_session signed_out.session)
run_refines_example = run_refines 0 other a_session signed_out signed_out-Coherent

abbrev route_in : List (Text × Route) → Text → Route
route_in [] path = catch_all
route_in ((p, r) ∷ ps) path = if text_beq p path then r else route_in ps path

-- The paths without parameters, also with a slash at their end.
abbrev a_router : Router
a_router = route_in (
    (codes "/login", login_page)
    ∷ (codes "/", home_page)
    ∷ (codes "//", home_page)
    ∷ (codes "/users", users_page)
    ∷ (codes "/users/", users_page)
    ∷ (codes "/users/new", new_user_page)
    ∷ (codes "/users/new/", new_user_page)
    ∷ (codes "/proxies", proxies_page)
    ∷ (codes "/proxies/", proxies_page)
    ∷ (codes "/proxies/new", new_proxy_page)
    ∷ (codes "/proxies/new/", new_proxy_page)
    ∷ (codes "/groups", groups_page)
    ∷ (codes "/groups/", groups_page)
    ∷ (codes "/groups/new", new_group_page)
    ∷ (codes "/groups/new/", new_group_page)
    ∷ (codes "/splitting", splitting_page)
    ∷ (codes "/splitting/", splitting_page)
    ∷ [])

a_router-matches : (r : Route) (path : Text) → IsPathOf r path → a_router path ≡ r
unfolding text_beq
a_router-matches r path home_path = refl
a_router-matches r path users_path = refl
a_router-matches r path new_user_path = refl
a_router-matches r path proxies_path = refl
a_router-matches r path new_proxy_path = refl
a_router-matches r path groups_path = refl
a_router-matches r path new_group_path = refl
a_router-matches r path splitting_path = refl

a_router-matches_slash :
    (r : Route) (path : Text) → IsPathOf r path → a_router (path ++ codes "/") ≡ r
unfolding text_beq
a_router-matches_slash r path home_path = refl
a_router-matches_slash r path users_path = refl
a_router-matches_slash r path new_user_path = refl
a_router-matches_slash r path proxies_path = refl
a_router-matches_slash r path new_proxy_path = refl
a_router-matches_slash r path groups_path = refl
a_router-matches_slash r path new_group_path = refl
a_router-matches_slash r path splitting_path = refl

a_router-MatchesPaths : MatchesPaths a_router
a_router-MatchesPaths = record {
  matches = a_router-matches;
  matches_slash = a_router-matches_slash;
}

abbrev ann_session : Session
ann_session = record { token = some (codes "t"); user = none }

ann_session-signed_in : is_authenticated ann_session ≡ true
unfolding is_authenticated is_present
ann_session-signed_in = refl

links-Opens_example :
    All
      (Opens a_router a_router-MatchesPaths ann_session ann_session-signed_in)
      (map (λ item. item.to) menu_items)
    × (All
          (Opens a_router a_router-MatchesPaths ann_session ann_session-signed_in)
          (map (λ card. card.destination) (Home.stat_cards a_config a_home))
        × All
            (Opens a_router a_router-MatchesPaths ann_session ann_session-signed_in)
            Home.button_links)
links-Opens_example =
    links-Opens a_router ann_session a_config a_home a_router-MatchesPaths ann_session-signed_in

abbrev a_login_page : LoginPage
a_login_page = record { error_text = none; loading = false; destination = none }

abbrev ann_granted : Grants server (codes "ann") (codes "pw")
ann_granted = record {
  token = codes "t";
  username = codes "ann";
  token_given = refl;
  profile_given = refl;
}

signed_out-out : is_authenticated signed_out.session ≡ false
unfolding is_authenticated is_present
signed_out-out = refl

groups-routed : a_router (codes "/groups") ≡ groups_page
unfolding text_beq
groups-routed = refl

login_return_example :
    let from = remembered (protected_route signed_out.session (codes "/groups")) in
    let (p', a') =
      on_finish server other (codes "?") from (codes "ann") (codes "pw") a_login_page signed_out in
    (p'.destination ≡ some (codes "/groups"))
    × ((p'.loading ≡ false) × (visit a_router a'.session 1 (codes "/groups") ≡ some groups_page))
login_return_example =
    login_return a_router groups_page (codes "/groups") server other (codes "?") (codes "ann")
      (codes "pw") a_login_page signed_out ann_granted groups-routed (cc, cc) (λ e. cc e)
      (λ e. cc e) signed_out-out
