-- ===== src/Auth.antt =====
-- The session of the admin panel (admin/front/src/auth.tsx, components/ProtectedRoute.tsx,
-- pages/LoginPage.tsx). Each `fetch` is answered by a parameter.
use split_proxy.Base.{
  Bool, true, false, Text, String, Option, none, some, List, [], ◌∷◌, ◌++◌, if◌then◌else◌,
}
use split_proxy.Browser.{
  SessionUser, Stored, plain, json_user, Storage, get_item, set_item, remove_item,
}
use split_proxy.Text.{codes}
use split_proxy.Api.{Thrown, error, other, Outcome, fulfilled, rejected}
pub mod Laws
pub mod Requests
pub mod Machine
pub mod Refinement

abbrev pub token_key : String
token_key = "admin_access_token"

abbrev pub user_key : String
user_key = "admin_current_user"

pub record Session : Type 0 where
  pub token : Option Text
  pub user : Option SessionUser

-- The initial values of the two states of `AuthProvider`. Each key holds what the panel stored under
-- it, a text or a user; a value of the other kind reads as absent.
unfoldable pub restored_token : Option Stored → Option Text
restored_token (some (plain t)) = some t
restored_token _ = none

unfoldable pub restored_user : Option Stored → Option SessionUser
restored_user (some (json_user u)) = some u
restored_user _ = none

unfoldable pub restore : Storage → Session
restore m = record {
  token = restored_token (get_item token_key m);
  user = restored_user (get_item user_key m);
}

-- `Boolean(token)`
unfoldable pub is_present : Option Text → Bool
is_present none = false
is_present (some []) = false
is_present (some (c ∷ t)) = true

unfoldable pub is_authenticated : Session → Bool
is_authenticated s = is_present s.token

-- What a `fetch` of `login` gives: a response with its `ok` and its JSON, or a rejection.
pub data Fetched (A : Type 0) : Type 0 where
  answered : Bool → Outcome A → Fetched A
  failed : Thrown → Fetched A

-- The two requests of `login`: the token of a user name and a password, and the user name that the
-- header `Authorization` stands for.
pub record AuthServer : Type 0 where
  pub get_token : Text → Text → Fetched Text
  pub current_profile : Text → Fetched Text

pub record Auth : Type 0 where
  pub storage : Storage
  pub session : Session

-- The JSON of a fetch whose response is `ok`; `bad` is what the code throws if it is not.
unfoldable pub accepted : Thrown → Fetched Text → Outcome Text
accepted bad (failed e) = rejected e
accepted bad (answered false body) = rejected bad
accepted bad (answered true body) = body

unfoldable pub next_user : Text → Text → SessionUser
next_user email username = record {
  id = username;
  name = username;
  email = email;
  username = username;
}

unfoldable pub signed_in : Text → Text → Text → Auth → Auth
signed_in email token username a = record {
  storage =
      set_item user_key (json_user (next_user email username))
        (set_item token_key (plain token) a.storage);
  session = record { token = some token; user = some (next_user email username) };
}

unfoldable pub with_profile : Text → Text → Outcome Text → Auth → Outcome (Unit {0}) × Auth
with_profile email token (rejected e) a = (rejected e, a)
with_profile email token (fulfilled username) a = (fulfilled tt, signed_in email token username a)

unfoldable pub with_token :
    AuthServer → Thrown → Text → Outcome Text → Auth → Outcome (Unit {0}) × Auth
with_token server bad email (rejected e) a = (rejected e, a)
with_token server bad email (fulfilled token) a =
    with_profile email token (accepted bad (server.current_profile (codes "Token " ++ token))) a

-- `bad` is the error with the translated text for invalid credentials.
unfoldable pub login : AuthServer → Thrown → Text → Text → Auth → Outcome (Unit {0}) × Auth
login server bad email password a =
    with_token server bad email (accepted bad (server.get_token email password)) a

unfoldable pub logout : Auth → Auth
logout a = record {
  storage = remove_item user_key (remove_item token_key a.storage);
  session = record { token = none; user = none };
}

-- `ProtectedRoute`: the page, or a redirect to the login page that remembers the path.
pub data Rendered : Type 0 where
  outlet : Rendered
  to_login : Text → Rendered

unfoldable pub protected_route : Session → Text → Rendered
protected_route s pathname = if is_authenticated s then outlet else to_login pathname

-- Where `LoginPage` goes after a login: `location.state?.from || "/admin/users"`.
unfoldable pub from_path : Option Text → Text
from_path none = codes "/admin/users"
from_path (some []) = codes "/admin/users"
from_path (some (c ∷ p)) = c ∷ p

pub record LoginPage : Type 0 where
  pub error_text : Option Text
  pub loading : Bool
  pub destination : Option Text

-- `e instanceof Error ? e.message : t("loginPage.loginError")`
abbrev pub login_error : Text → Thrown → Text
login_error fallback (error m) = m
login_error fallback other = fallback

unfoldable pub login_settled : Text → Option Text → Outcome (Unit {0}) → LoginPage → LoginPage
login_settled fallback from (fulfilled _) p = record p {
  destination = some (from_path from);
  loading = false;
}
login_settled fallback from (rejected e) p = record p {
  error_text = some (login_error fallback e);
  loading = false;
}

unfoldable pub on_finish :
    AuthServer → Thrown → Text → Option Text → Text → Text → LoginPage → Auth → LoginPage × Auth
on_finish server bad fallback from email password p a =
    let started = record p { error_text = none; loading = true } in
    let (r, a') = login server bad email password a in (login_settled fallback from r started, a')
