-- ===== src/Api/UserApi.antt =====
-- The URL, the method and the body of each function of admin/front/src/shared/api/userApi.ts.
use split_proxy.Base.{ℕ, [], ◌∷◌}
use split_proxy.Api.Types.{UserInput}
use split_proxy.Api.Client.{get, post, patch, delete, text}
use split_proxy.Api.Building.{plain_call, bare_call, Endpoint, numbered, at_path}

unfoldable pub get_user : ℕ → Endpoint
get_user id = numbered "/profile/" id (bare_call get)

unfoldable pub get_users : Endpoint
get_users = at_path "/profile" [] (bare_call get)

unfoldable pub create_user : UserInput → Endpoint
create_user input =
    at_path "/profile" []
      (plain_call post (("username", text input.username) ∷ ("password", text input.password) ∷ []))

unfoldable pub update_user : ℕ → UserInput → Endpoint
update_user id input =
    numbered "/profile/" id (
      plain_call patch (("username", text input.username) ∷ ("password", text input.password) ∷ []))

unfoldable pub remove_user : ℕ → Endpoint
remove_user id = numbered "/profile/" id (bare_call delete)
