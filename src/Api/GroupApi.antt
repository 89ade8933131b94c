-- ===== src/Api/GroupApi.antt =====
-- The URL, the method and the body of each function of admin/front/src/shared/api/groupApi.ts.
use split_proxy.Base.{ℕ, [], ◌∷◌}
use split_proxy.Api.Types.{GroupInput}
use split_proxy.Api.Client.{get, post, patch, delete, text}
use split_proxy.Api.Building.{plain_call, bare_call, Endpoint, numbered, at_path}

unfoldable pub get_group : ℕ → Endpoint
get_group id = numbered "/worker_group/" id (bare_call get)

unfoldable pub get_groups : Endpoint
get_groups = at_path "/worker_group" [] (bare_call get)

unfoldable pub create_group : GroupInput → Endpoint
create_group input =
    at_path "/worker_group" [] (plain_call post (("group_name", text input.group_name) ∷ []))

unfoldable pub update_group : ℕ → GroupInput → Endpoint
update_group id input =
    numbered "/worker_group/" id (plain_call patch (("group_name", text input.group_name) ∷ []))

unfoldable pub remove_group : ℕ → Endpoint
remove_group id = numbered "/worker_group/" id (bare_call delete)
