-- ===== src/Shell/Return.antt =====
-- A visitor who has been sent to the login page comes back to the path of the visit.
use split_proxy.Base.{◌≡◌, ◌≢◌, refl, ap, true, false, Text, Option, none, some, [], ◌∷◌}
use split_proxy.Api.{Thrown}
use split_proxy.Auth.{
  AuthServer, Auth, Rendered, outlet, to_login, is_present, is_authenticated, protected_route,
  from_path, LoginPage, login_settled, on_finish, signed_in,
}
use split_proxy.Auth.Laws.{Grants, Grants-login}
use split_proxy.Shell.{Route, Router, visit}
use split_proxy.Shell.Links.{IsPage, visit-page}

-- `location.state?.from` on the page behind what was rendered.
abbrev pub remembered : Rendered → Option Text
remembered outlet = none
remembered (to_login path) = some path

from_path-nonempty : (path : Text) → path ≢ [] → from_path (some path) ≡ path
unfolding from_path
from_path-nonempty [] h = absurd (h refl)
from_path-nonempty (c ∷ p) h = refl

is_present-nonempty : (token : Text) → token ≢ [] → is_present (some token) ≡ true
unfolding is_present
is_present-nonempty [] h = absurd (h refl)
is_present-nonempty (c ∷ t) h = refl

signed_in-is_authenticated :
    (email token username : Text) (a : Auth)
    → token ≢ []
    → is_authenticated (signed_in email token username a).session ≡ true
unfolding is_authenticated signed_in
signed_in-is_authenticated email token username a h = is_present-nonempty token h

-- Where a visitor who is signed out visits a path of a page and then submits credentials for which
-- the server gives a token that is not empty and a profile: the login page goes to that path, is no
-- longer loading, and the path shows its page.
pub login_return :
    (router : Router) (r : Route) (path : Text) (server : AuthServer) (bad : Thrown)
    (fallback email password : Text) (p : LoginPage) (a : Auth) (g : Grants server email password)
    → router path ≡ r
    → IsPage r
    → path ≢ []
    → g.token ≢ []
    → is_authenticated a.session ≡ false
    → let from = remembered (protected_route a.session path) in
      let (p', a') = on_finish server bad fallback from email password p a in
      (p'.destination ≡ some path)
      × ((p'.loading ≡ false) × (visit router a'.session 1 path ≡ some r))
unfolding on_finish login_settled protected_route
login_return router r path server bad fallback email password p a g at page ne token_ne out =
    rw (out, Grants-login server bad email password a g)
      (
        ap some (from_path-nonempty path ne),
        (
          refl,
          visit-page router _ (signed_in-is_authenticated email g.token g.username a token_ne) path
              r page at,
        ),
      )
