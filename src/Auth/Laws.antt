-- ===== src/Auth/Laws.antt =====
-- Logging in and out, and what a reload of the panel restores.
use split_proxy.Base.{◌≡◌, ◌↔◌, refl, ap, true, false, Text, ◌++◌}
use split_proxy.Browser.{get_item-set_item, get_item-remove_item}
use split_proxy.Text.{codes}
use split_proxy.Api.{Thrown, Outcome, fulfilled, rejected}
use split_proxy.Auth.{
  restore, restored_token, restored_user, is_authenticated, is_present, Fetched, answered, failed,
  AuthServer, Auth, accepted, signed_in, with_profile, with_token, login, logout, protected_route,
  to_login,
}

-- A reload of the panel restores the session.
abbrev pub Coherent : Auth → Type 0
Coherent a = restore a.storage ≡ a.session

signed_in-Coherent :
    (email token username : Text) (a : Auth) → Coherent (signed_in email token username a)
unfolding signed_in restore restored_token restored_user
signed_in-Coherent email token username a =
    simp (get_item-set_item, restored_token, restored_user) refl

with_profile-Coherent :
    (email token : Text) (o : Outcome Text) (a : Auth)
    → Coherent a
    → Coherent (with_profile email token o a).1
unfolding with_profile
with_profile-Coherent email token (rejected e) a h = h
with_profile-Coherent email token (fulfilled username) a h =
    signed_in-Coherent email token username a

with_token-Coherent :
    (server : AuthServer) (bad : Thrown) (email : Text) (o : Outcome Text) (a : Auth)
    → Coherent a
    → Coherent (with_token server bad email o a).1
unfolding with_token
with_token-Coherent server bad email (rejected e) a h = h
with_token-Coherent server bad email (fulfilled token) a h = with_profile-Coherent email token _ a h

pub logout-Coherent : (a : Auth) → Coherent (logout a)
unfolding logout restore restored_token restored_user
logout-Coherent a =
    simp (get_item-remove_item, get_item-remove_item, restored_token, restored_user) refl

-- Where a reload would restore the session, it still does after a login, whatever the server
-- answers, and after a logout.
pub session-Coherent :
    (server : AuthServer) (bad : Thrown) (email password : Text) (a : Auth)
    → Coherent a
    → Coherent (login server bad email password a).1 × Coherent (logout a)
unfolding login
session-Coherent server bad email password a h =
    (with_token-Coherent server bad email _ a h, logout-Coherent a)

-- The two answers that a login needs.
pub record Grants (server : AuthServer) (email password : Text) : Type 0 where
  pub token : Text
  pub username : Text
  pub token_given : server.get_token email password ≡ answered true (fulfilled token)
  pub profile_given :
      server.current_profile (codes "Token " ++ token) ≡ answered true (fulfilled username)

accepted-fulfilled :
    (bad : Thrown) (f : Fetched Text) (t : Text)
    → accepted bad f ≡ fulfilled t
    → f ≡ answered true (fulfilled t)
unfolding accepted
accepted-fulfilled bad (failed e) t h = cc
accepted-fulfilled bad (answered false b) t h = cc
accepted-fulfilled bad (answered true b) t h = ap (answered true) h

with_profile-fulfilled :
    (email token : Text) (o : Outcome Text) (a : Auth)
    → (with_profile email token o a).0 ≡ fulfilled tt
    → (t : Text) × (o ≡ fulfilled t)
unfolding with_profile
with_profile-fulfilled email token (rejected e) a h = cc
with_profile-fulfilled email token (fulfilled t) a h = (t, refl)

login-Grants :
    (server : AuthServer) (bad : Thrown) (email password : Text) (o : Outcome Text) (a : Auth)
    → accepted bad (server.get_token email password) ≡ o
    → (with_token server bad email o a).0 ≡ fulfilled tt
    → Grants server email password
unfolding with_token
login-Grants server bad email password (rejected e) a same h = cc
login-Grants server bad email password (fulfilled token) a same h =
    let (username, e) = with_profile-fulfilled email token _ a h in
    record {
      token = token;
      username = username;
      token_given = accepted-fulfilled bad _ token same;
      profile_given = accepted-fulfilled bad _ username e;
    }

pub Grants-login :
    (server : AuthServer) (bad : Thrown) (email password : Text) (a : Auth)
    (g : Grants server email password)
    → login server bad email password a ≡ (fulfilled tt, signed_in email g.token g.username a)
unfolding login with_token with_profile accepted
Grants-login server bad email password a g = rw (g.token_given, g.profile_given) refl

-- A login succeeds exactly when the server gives a token for the credentials and then a profile
-- for that token, both in responses that are ok.
pub login_iff :
    (server : AuthServer) (bad : Thrown) (email password : Text) (a : Auth)
    → ((login server bad email password a).0 ≡ fulfilled tt) ↔ Grants server email password
unfolding login
login_iff server bad email password a = (
  login-Grants server bad email password _ a refl,
  λ g. ap (λ r. r.0) (Grants-login server bad email password a g),
)

with_profile-rejected :
    (email token : Text) (o : Outcome Text) (a : Auth) (e : Thrown)
    → (with_profile email token o a).0 ≡ rejected e
    → (with_profile email token o a).1 ≡ a
unfolding with_profile
with_profile-rejected email token (rejected d) a e h = refl
with_profile-rejected email token (fulfilled t) a e h = cc

with_token-rejected :
    (server : AuthServer) (bad : Thrown) (email : Text) (o : Outcome Text) (a : Auth) (e : Thrown)
    → (with_token server bad email o a).0 ≡ rejected e
    → (with_token server bad email o a).1 ≡ a
unfolding with_token
with_token-rejected server bad email (rejected d) a e h = refl
with_token-rejected server bad email (fulfilled token) a e h =
    with_profile-rejected email token _ a e h

-- A login that throws changes neither the stored session nor the one of the provider.
pub login-rejected :
    (server : AuthServer) (bad : Thrown) (email password : Text) (a : Auth) (e : Thrown)
    → (login server bad email password a).0 ≡ rejected e
    → (login server bad email password a).1 ≡ a
unfolding login
login-rejected server bad email password a e h = with_token-rejected server bad email _ a e h

-- After a logout every protected page is a redirect to the login page that remembers its path,
-- also in a panel that restores its session from the storage.
pub logout-protected_route :
    (a : Auth) (pathname : Text)
    → (protected_route (logout a).session pathname ≡ to_login pathname)
      × (protected_route (restore (logout a).storage) pathname ≡ to_login pathname)
unfolding protected_route is_authenticated is_present
logout-protected_route a pathname = rw (logout-Coherent a) (unfold logout in (refl, refl))
