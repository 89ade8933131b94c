-- ===== src/Api/Client.antt =====
-- `apiFetch` and `ApiError` (admin/front/src/shared/api/apiClient.ts). The network is a parameter
-- of the calls: what `fetch` gives is a `Reply`.
use split_proxy.Base.{
  ℕ, Bool, ◌&&◌, Text, String, Option, none, some, List, [], ◌∷◌, ◌++◌, leb, nat_beq, if◌then◌else◌,
}
use split_proxy.Browser.{Stored, plain, json_user, Storage, get_item, Browser}
use split_proxy.Text.{codes}
use split_proxy.Api.AuthStorage
use split_proxy.Api.Calls.{Thrown, error, Outcome, fulfilled, rejected}

-- `localStorage.getItem(key)` read as a text.
unfoldable pub stored_text : Option Stored → Option Text
stored_text none = none
stored_text (some (plain t)) = some t
stored_text (some (json_user u)) = none

pub data Method : Type 0 where
  get post patch delete : Method

-- A field of the JSON object that a call sends.
pub data Json : Type 0 where
  text : Text → Json
  number : ℕ → Json
  null : Json
  texts : List Text → Json

pub record RequestInit : Type 0 where
  pub method : Method
  pub body : Option (List (String × Json))
  pub headers : List (String × Text)

pub record Request : Type 0 where
  pub url : Text
  pub method : Method
  pub body : Option (List (String × Json))
  pub headers : List (String × Text)

-- `token ? ... : {}`: an absent and an empty token are false.
unfoldable pub authorization : Option Text → List (String × Text)
authorization none = []
authorization (some []) = []
authorization (some (c ∷ t)) = ("Authorization", codes "Token " ++ c ∷ t) ∷ []

-- `options.body ? { "Content-Type": ... } : {}`
abbrev pub content_type : Option (List (String × Json)) → List (String × Text)
content_type none = []
content_type (some b) = ("Content-Type", codes "application/json") ∷ []

-- What `apiFetch` passes to `fetch`; a later header of one name overrides an earlier one.
unfoldable pub prepare : Text → RequestInit → Storage → Request
prepare url options storage = record {
  url = codes "/api/v1" ++ url;
  method = options.method;
  body = options.body;
  headers =
      ("Accept", codes "application/json")
      ∷ (content_type options.body
          ++ (authorization (stored_text (get_item "admin_access_token" storage))
              ++ options.headers));
}

-- A response: its status, its body as a text, and the value that its JSON stands for, or the
-- message of the error that reading it throws.
pub record Response (A : Type 0) : Type 0 where
  pub status : ℕ
  pub body_text : Text
  pub json : Outcome A

-- What `fetch` gives: a response, or a rejection with the message of its error.
pub data Reply (A : Type 0) : Type 0 where
  responded : Response A → Reply A
  no_response : Text → Reply A

-- `response.ok`
abbrev pub is_ok : ℕ → Bool
is_ok status = leb 200 status && leb status 299

-- `new ApiError(status)`: an `Error` whose message is the empty string.
unfoldable pub api_error : ℕ → Thrown
api_error status = error []

module _ {A : Type 0} (undefined : A) where
  -- `apiFetch` on a response; `undefined` is what a 204 resolves to.
  unfoldable pub handle_response : Response A → Browser → Outcome A × Browser
  handle_response r b =
      if nat_beq r.status 400
      then (rejected (error r.body_text), b)
      else if nat_beq r.status 401
      then (
        rejected (error (codes "UNAUTHORIZED")),
        record { storage = AuthStorage.remove_token b.storage; location = some (codes "/login") },
      )
      else if nat_beq r.status 403
      then (rejected (error (codes "FORBIDDEN")), b)
      else if is_ok r.status
      then (if nat_beq r.status 204 then (fulfilled undefined, b) else (r.json, b))
      else (rejected (api_error r.status), b)

  unfoldable pub api_fetch : Reply A → Browser → Outcome A × Browser
  api_fetch (no_response m) b = (rejected (error m), b)
  api_fetch (responded r) b = handle_response r b
