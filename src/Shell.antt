-- ===== src/Shell.antt =====
-- The routes of the panel and the way out of it (admin/front/src/App.tsx,
-- components/AdminLayout.tsx). Which route a path matches best is the router library's and a
-- parameter.
use split_proxy.Base.{ℕ, zero, suc, ◌≡◌, Bool, true, false, Text, Option, none, some, List, [], ◌∷◌}
use split_proxy.Text.{codes}
use split_proxy.Auth.{Session, Auth, Rendered, outlet, to_login, protected_route, logout}
pub mod Menu
pub mod Links
pub mod Selected
pub mod Return
pub mod Laws

-- The elements of `Routes`, in the order of the source; the last one is `path="*"`.
pub data Route : Type 0 where
  login_page home_page users_page new_user_page edit_user_page proxies_page new_proxy_page : Route
  edit_proxy_page groups_page new_group_page edit_group_page splitting_page catch_all : Route

-- The best match of a path in `Routes`, which the catch-all route makes total.
abbrev pub Router : Type 0
Router = Text → Route

-- What the library documents of the two static paths that the panel redirects to.
pub record MatchesStatic (router : Router) : Type 0 where
  pub login_path : router (codes "/login") ≡ login_page
  pub users_path : router (codes "/users") ≡ users_page

pub data Shown : Type 0 where
  page : Route → Shown
  redirect : Text → Shown

-- A route inside of `ProtectedRoute`.
unfoldable pub guarded : Route → Rendered → Shown
guarded r outlet = page r
guarded r (to_login from) = redirect (codes "/login")

-- What `App` renders for a path whose best match is the route.
unfoldable pub render : Session → Text → Route → Shown
render s path login_page = page login_page
render s path catch_all = redirect (codes "/users")
render s path r = guarded r (protected_route s path)

-- A page, or what `follow` makes of the path of a redirect.
unfoldable pub after : Shown → (Text → Option Route) → Option Route
after (page r) follow = some r
after (redirect next) follow = follow next

-- The page at the end of fewer redirects than `fuel`.
unfoldable pub visit : Router → Session → ℕ → Text → Option Route
visit router s zero path = none
visit router s (suc fuel) path =
    after (render s path (router path)) (λ next. visit router s fuel next)

-- `handleLogout`: the session afterwards, and where it navigates.
unfoldable pub handle_logout : Auth → Auth × Text
handle_logout a = (logout a, codes "/login")
