-- ===== src/Shell/Links.antt =====
-- Where the menu and the buttons of the dashboard lead.
use split_proxy.Base.{
  ◌≡◌, ◌≢◌, refl, ◌∙◌, ap, true, Text, some, [], ◌∷◌, ◌++◌, map, All, nat_beq, if◌then◌else◌,
}
use split_proxy.Text.{codes}
use split_proxy.Auth.{Session, is_authenticated, protected_route}
use split_proxy.Home.{HomePage, ConfigContext, stat_card, stat_cards, button_links}
use split_proxy.Shell.{
  Route, login_page, home_page, users_page, new_user_page, proxies_page, new_proxy_page,
  groups_page, new_group_page, splitting_page, catch_all, Router, guarded, render, after, visit,
}
use split_proxy.Shell.Menu.{menu_items}

-- The paths of the routes that take no parameter.
pub data IsPathOf : Route → Text → Type 0 where
  home_path : IsPathOf home_page (codes "/")
  users_path : IsPathOf users_page (codes "/users")
  new_user_path : IsPathOf new_user_page (codes "/users/new")
  proxies_path : IsPathOf proxies_page (codes "/proxies")
  new_proxy_path : IsPathOf new_proxy_page (codes "/proxies/new")
  groups_path : IsPathOf groups_page (codes "/groups")
  new_group_path : IsPathOf new_group_page (codes "/groups/new")
  splitting_path : IsPathOf splitting_page (codes "/splitting")

-- What the router library documents: a path without parameters matches its route, also with a slash
-- at its end.
pub record MatchesPaths (router : Router) : Type 0 where
  pub matches : (r : Route) (path : Text) → IsPathOf r path → router path ≡ r
  pub matches_slash : (r : Route) (path : Text) → IsPathOf r path → router (path ++ codes "/") ≡ r

-- The part of a link before its query.
unfoldable pub pathname : Text → Text
pathname [] = []
pathname (c ∷ s) = let rest = pathname s in if nat_beq c b'?' then [] else c ∷ rest

-- The pages inside of the layout.
abbrev pub IsPage : Route → Type 0
IsPage r = (r ≢ login_page) × (r ≢ catch_all)

render-page :
    (s : Session) (path : Text) (r : Route)
    → IsPage r
    → render s path r ≡ guarded r (protected_route s path)
unfolding render
render-page s path login_page h = absurd (h.0 refl)
render-page s path catch_all h = absurd (h.1 refl)
render-page s path r h = refl

module _ (router : Router) (s : Session) (signed_in : is_authenticated s ≡ true) where
  -- A page at a path, at once.
  pub visit-page :
      (path : Text) (r : Route) → IsPage r → router path ≡ r → visit router s 1 path ≡ some r
  unfolding visit guarded protected_route after
  visit-page path r p h = rw (h, render-page s path r p, signed_in) refl

module _ (router : Router) (m : MatchesPaths router) (s : Session)
    (signed_in : is_authenticated s ≡ true) where
  abbrev pub Opens : Text → Type 0
  Opens link = (r : Route) × (IsPage r × (visit router s 1 (pathname link) ≡ some r))

  module _ (r : Route) (path : Text) (at_path : IsPathOf r path) (page : IsPage r) where
    opens : (link : Text) → pathname link ≡ path → Opens link
    opens link same = (
      r,
      (
        page,
        visit-page router s signed_in (pathname link) r page
            (ap router same ∙ m.matches r path at_path),
      ),
    )

    Opens-slash : (link : Text) → pathname link ≡ path ++ codes "/" → Opens link
    Opens-slash link same = (
      r,
      (
        page,
        visit-page router s signed_in (pathname link) r page
            (ap router same ∙ m.matches_slash r path at_path),
      ),
    )

  home-Opens : (link : Text) → pathname link ≡ codes "/" → Opens link
  home-Opens = opens home_page (codes "/") home_path (cc, cc)

  groups-Opens : (link : Text) → pathname link ≡ codes "/groups" → Opens link
  groups-Opens = opens groups_page (codes "/groups") groups_path (cc, cc)

  new_group-Opens : (link : Text) → pathname link ≡ codes "/groups/new" → Opens link
  new_group-Opens = opens new_group_page (codes "/groups/new") new_group_path (cc, cc)

  proxies-Opens : (link : Text) → pathname link ≡ codes "/proxies" → Opens link
  proxies-Opens = opens proxies_page (codes "/proxies") proxies_path (cc, cc)

  new_proxy-Opens : (link : Text) → pathname link ≡ codes "/proxies/new" → Opens link
  new_proxy-Opens = opens new_proxy_page (codes "/proxies/new") new_proxy_path (cc, cc)

  users-Opens : (link : Text) → pathname link ≡ codes "/users" → Opens link
  users-Opens = opens users_page (codes "/users") users_path (cc, cc)

  splitting-Opens : (link : Text) → pathname link ≡ codes "/splitting" → Opens link
  splitting-Opens = opens splitting_page (codes "/splitting") splitting_path (cc, cc)

  menu-Opens : All Opens (map (λ item. item.to) menu_items)
  unfolding menu_items pathname
  menu-Opens = (
    home-Opens (codes "/") refl,
    (
      groups-Opens (codes "/groups") refl,
      (
        Opens-slash splitting_page (codes "/splitting") splitting_path (cc, cc)
            (codes "/splitting/") refl,
        (proxies-Opens (codes "/proxies") refl, (users-Opens (codes "/users") refl, tt)),
      ),
    ),
  )

  cards-Opens :
      (c : ConfigContext) (h : HomePage)
      → All Opens (map (λ card. card.destination) (stat_cards c h))
  unfolding stat_cards stat_card pathname
  cards-Opens c h = (
    groups-Opens (codes "/groups") refl,
    (
      groups-Opens (codes "/groups") refl,
      (
        proxies-Opens (codes "/proxies") refl,
        (
          splitting-Opens (codes "/splitting?tab=domains") refl,
          (
            splitting-Opens (codes "/splitting?tab=cidrs") refl,
            (users-Opens (codes "/users") refl, tt),
          ),
        ),
      ),
    ),
  )

  buttons-Opens : All Opens button_links
  unfolding button_links pathname
  buttons-Opens = (
    groups-Opens (codes "/groups") refl,
    (
      splitting-Opens (codes "/splitting") refl,
      (
        new_group-Opens (codes "/groups/new") refl,
        (
          new_proxy-Opens (codes "/proxies/new") refl,
          (
            splitting-Opens (codes "/splitting?tab=domains") refl,
            (splitting-Opens (codes "/splitting?tab=cidrs") refl, tt),
          ),
        ),
      ),
    ),
  )

-- With a router that matches the paths without parameters, for a visitor who is signed in every
-- item of the menu, and on the dashboard every card of a figure and every button that leads to a
-- page, opens a page of the panel without a redirect.
pub links-Opens :
    (router : Router) (s : Session) (c : ConfigContext) (h : HomePage) (m : MatchesPaths router)
    (signed_in : is_authenticated s ≡ true)
    → All (Opens router m s signed_in) (map (λ item. item.to) menu_items)
      × (All (Opens router m s signed_in) (map (λ card. card.destination) (stat_cards c h))
          × All (Opens router m s signed_in) button_links)
links-Opens router s c h m signed_in = (
  menu-Opens router m s signed_in,
  (cards-Opens router m s signed_in c h, buttons-Opens router m s signed_in),
)
