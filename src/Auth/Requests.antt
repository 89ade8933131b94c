-- ===== src/Auth/Requests.antt =====
-- How the session signs the requests of the API client.
use split_proxy.Base.{◌≡◌, refl, sym, ap, ◌∙◌, true, Text, none, some, [], ◌∷◌}
use split_proxy.Browser.{plain, Storage, get_item, get_item-set_item, get_item-remove_item, Browser}
use split_proxy.Text.{codes}
use split_proxy.Api.{Thrown, fulfilled}
use split_proxy.Api.Client.{RequestInit, prepare, Response, handle_response}
use split_proxy.Api.AuthStorage.{remove_token}
use split_proxy.Auth.{restore, AuthServer, Auth, answered, token_key, signed_in, login, logout}
use split_proxy.Auth.Laws.{login_iff, Grants-login}

-- A storage that holds a token and nothing else.
abbrev pub only_token : Text → Storage
only_token token = (token_key, plain token) ∷ []

-- The client reads nothing of the storage but the token.
prepare-get_item :
    (url : Text) (options : RequestInit) (m n : Storage)
    → get_item token_key m ≡ get_item token_key n
    → prepare url options m ≡ prepare url options n
unfolding prepare
prepare-get_item url options m n e = rw e refl

signed_in-token :
    (email token username : Text) (a : Auth)
    → get_item token_key (signed_in email token username a).storage ≡ some (plain token)
unfolding signed_in
signed_in-token email token username a = simp (get_item-set_item) refl

logout-token : (a : Auth) → get_item token_key (logout a).storage ≡ none
unfolding logout
logout-token a = simp (get_item-remove_item) refl

only_token-token : (token : Text) → get_item token_key (only_token token) ≡ some (plain token)
unfolding get_item
only_token-token token = refl

nothing-token : get_item token_key [] ≡ none
unfolding get_item
nothing-token = refl

-- After a successful login, every request of the client is the one that it makes with the token of
-- that login, and after a logout it is the one that it makes without a token.
pub login-prepare :
    (server : AuthServer) (bad : Thrown) (email password url : Text) (options : RequestInit)
    (a : Auth)
    → (login server bad email password a).0 ≡ fulfilled tt
    → let b = (login server bad email password a).1 in
      ((token : Text) × ((server.get_token email password ≡ answered true (fulfilled token))
          × (prepare url options b.storage ≡ prepare url options (only_token token))))
      × (prepare url options (logout b).storage ≡ prepare url options [])
login-prepare server bad email password url options a h =
    let g = (login_iff server bad email password a).0 h in
    let e = ap (λ r. r.1) (Grants-login server bad email password a g) in
    (
      (
        g.token,
        (
          g.token_given,
          prepare-get_item url options _ (only_token g.token) (
              ap (λ (b : Auth). get_item token_key b.storage) e
              ∙ (signed_in-token email g.token g.username a ∙ sym (only_token-token g.token))),
        ),
      ),
      prepare-get_item url options _ [] (logout-token _ ∙ sym nothing-token),
    )

pub removed_other-session :
    (m : Storage) (url : Text) (options : RequestInit)
    → (restore (remove_token m) ≡ restore m)
      × (prepare url options (remove_token m) ≡ prepare url options m)
unfolding remove_token restore
removed_other-session m url options = (
  simp (get_item-remove_item) refl,
  prepare-get_item url options _ m (get_item-remove_item "ACCESS_TOKEN" token_key m),
)

-- A 401 sends the browser to the login page, but a panel that restores its session has the same
-- token and user as before, and the client signs its requests as before.
pub unauthorized-session :
    {A : Type 0} (undefined : A) (r : Response A) (b : Browser) (url : Text) (options : RequestInit)
    → r.status ≡ 401
    → let b' = (handle_response undefined r b).1 in
      (b'.location ≡ some (codes "/login"))
      × ((restore b'.storage ≡ restore b.storage)
          × (prepare url options b'.storage ≡ prepare url options b.storage))
unfolding handle_response
unauthorized-session undefined r b url options h =
    rw h (refl, removed_other-session b.storage url options)
