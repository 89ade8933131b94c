-- ===== src/Auth/Machine.antt =====
-- What a visitor does with the session and what is seen of it, on the panel and on its abstract
-- view, which keeps the token and the user and has no storage.
use split_proxy.Base.{Text, Option, none, some, List, [], ◌∷◌, ◌++◌}
use split_proxy.Browser.{Browser}
use split_proxy.Text.{codes}
use split_proxy.Api.{Thrown, Outcome, fulfilled, rejected}
use split_proxy.Api.Client.{
  RequestInit, Request, prepare, authorization, content_type, Reply, api_fetch,
}
use split_proxy.Auth.{
  Session, AuthServer, Auth, Rendered, restore, accepted, next_user, login, logout, protected_route,
}

-- One thing that happens: a submitted login, a logout, a reload of the panel, a call of the API
-- with the reply to it, and a visit of a protected path.
pub data Event (A : Type 0) : Type 0 where
  log_in : AuthServer → Text → Text → Event A
  log_out : Event A
  reload : Event A
  call : Text → RequestInit → Reply A → Event A
  open_path : Text → Event A

-- What is seen of it.
pub data Seen (A : Type 0) : Type 0 where
  logged : Outcome (Unit {0}) → Seen A
  requested : Request → Outcome A → Seen A
  rendered : Rendered → Seen A
  nothing : Seen A

-- An address that a script has set loads the panel anew.
abbrev pub arrive : Browser → Session → Session
arrive b s = elim b.location [ none ↦ s | some path ↦ restore b.storage ]

abbrev pub called : {A : Type 0} → Request → Session → Outcome A × Browser → Seen A × Auth
called request s (o, b) =
    (requested request o, record { storage = b.storage; session = arrive b s })

-- The value that a 204 resolves to, and the error for invalid credentials.
module _ {A : Type 0} (undefined : A) (bad : Thrown) where
  unfoldable pub step : Event A → Auth → Seen A × Auth
  step (log_in server email password) a =
      let (r, a') = login server bad email password a in (logged r, a')
  step log_out a = (nothing, logout a)
  step reload a = (nothing, record { storage = a.storage; session = restore a.storage })
  step (call url options reply) a =
      called (prepare url options a.storage) a.session
        (api_fetch undefined reply (record { storage = a.storage; location = none }))
  step (open_path path) a = (rendered (protected_route a.session path), a)

  unfoldable pub run : List (Event A) → Auth → List (Seen A) × Auth
  run [] a = ([], a)
  run (e ∷ es) a = let (seen, a') = step e a in let (rest, b) = run es a' in (seen ∷ rest, b)

-- The session that two good answers give, and the old one otherwise.
abbrev pub spec_profile : Text → Text → Session → Outcome Text → Outcome (Unit {0}) × Session
spec_profile email token s (rejected e) = (rejected e, s)
spec_profile email token s (fulfilled username) =
    (fulfilled tt, record { token = some token; user = some (next_user email username) })

abbrev pub spec_login :
    AuthServer → Thrown → Text → Session → Outcome Text → Outcome (Unit {0}) × Session
spec_login server bad email s (rejected e) = (rejected e, s)
spec_login server bad email s (fulfilled token) =
    spec_profile email token s (accepted bad (server.current_profile (codes "Token " ++ token)))

-- The request of a call, signed with the token.
abbrev pub spec_request : Text → RequestInit → Option Text → Request
spec_request url options token = record {
  url = codes "/api/v1" ++ url;
  method = options.method;
  body = options.body;
  headers =
      ("Accept", codes "application/json")
      ∷ (content_type options.body ++ (authorization token ++ options.headers));
}

abbrev pub spec_logged : {A : Type 0} → Outcome (Unit {0}) × Session → Seen A × Session
spec_logged (r, s) = (logged r, s)

-- A browser that stores nothing.
abbrev pub no_storage : Browser
no_storage = record { storage = []; location = none }

module _ {A : Type 0} (undefined : A) (bad : Thrown) where
  unfoldable pub spec_step : Event A → Session → Seen A × Session
  spec_step (log_in server email password) s =
      spec_logged (spec_login server bad email s (accepted bad (server.get_token email password)))
  spec_step log_out s = (nothing, record { token = none; user = none })
  spec_step reload s = (nothing, s)
  spec_step (call url options reply) s =
      (requested (spec_request url options s.token) (api_fetch undefined reply no_storage).0, s)
  spec_step (open_path path) s = (rendered (protected_route s path), s)

  unfoldable pub spec_run : List (Event A) → Session → List (Seen A) × Session
  spec_run [] s = ([], s)
  spec_run (e ∷ es) s =
      let (seen, s') = spec_step e s in let (rest, t) = spec_run es s' in (seen ∷ rest, t)
