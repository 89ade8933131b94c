-- ===== src/Api/Responses.antt =====
-- What `apiFetch` makes of a response, by its status.
use split_proxy.Base.{ℕ, ◌≤◌, ◌<◌, ◌≡◌, ◌≢◌, ◌⊎◌, ◌↔◌, [], arith}
use split_proxy.Browser.{Browser}
use split_proxy.Api.Calls.{error, fulfilled, rejected}
use split_proxy.Api.Client.{Response, api_error, handle_response}

-- A status that is not ok and that the code does not name, as 404 and 500.
abbrev pub Unnamed : ℕ → Type 0
Unnamed status =
    (status ≢ 400) × ((status ≢ 401) × ((status ≢ 403) × ((status < 200) ⊎ (299 < status))))

module _ {A : Type 0} (undefined : A) where
  -- A call resolves only on a status from 200 to 299, and then the browser's storage and address
  -- are as they were.
  pub handle_response-fulfilled :
      (r : Response A) (b : Browser) (a : A)
      → (handle_response undefined r b).0 ≡ fulfilled a
      → (200 ≤ r.status) × ((r.status ≤ 299) × ((handle_response undefined r b).1 ≡ b))
  unfolding handle_response
  handle_response-fulfilled r b a h = ground arith

  -- Where the response has a text and its JSON can be read, a call rejects with an error whose
  -- message is empty exactly on a status that is not ok and is none of 400, 401 and 403.
  pub handle_response-silent :
      (r : Response A) (b : Browser) (a : A)
      → r.json ≡ fulfilled a
      → r.body_text ≢ []
      → ((handle_response undefined r b).0 ≡ rejected (error [])) ↔ Unnamed r.status
  unfolding handle_response api_error
  handle_response-silent r b a json text = (λ h. ground (arith, json), λ h. ground arith)
