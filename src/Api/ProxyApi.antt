-- ===== src/Api/ProxyApi.antt =====
-- The URL, the method and the body of each function of admin/front/src/shared/api/proxyApi.ts.
use split_proxy.Base.{ℕ, Text, [], ◌∷◌, ◌++◌}
use split_proxy.Text.{string_of_nat}
use split_proxy.Api.Types.{ProxyInput}
use split_proxy.Api.Calls.{ProxyListParams}
use split_proxy.Api.Client.{get, post, patch, delete, text}
use split_proxy.Api.Building.{
  param, trimmed_param, query_suffix, plain_call, bare_call, Endpoint, numbered, at_path,
}

unfoldable pub build_query : ProxyListParams → Text
build_query p = query_suffix (
    param "page" string_of_nat p.page
    ++ (param "page_size" string_of_nat p.page_size ++ trimmed_param "search" p.search))

unfoldable pub get_proxy : ℕ → Endpoint
get_proxy id = numbered "/proxy/" id (bare_call get)

unfoldable pub get_proxies : ProxyListParams → Endpoint
get_proxies params = at_path "/proxy" (build_query params) (bare_call get)

unfoldable pub create_proxy : ProxyInput → Endpoint
create_proxy input =
    at_path "/proxy" []
      (plain_call post (("username", text input.username) ∷ ("password", text input.password) ∷ []))

unfoldable pub update_proxy : ℕ → ProxyInput → Endpoint
update_proxy id input =
    numbered "/proxy/" id (
      plain_call patch (("username", text input.username) ∷ ("password", text input.password) ∷ []))

unfoldable pub remove_proxy : ℕ → Endpoint
remove_proxy id = numbered "/proxy/" id (bare_call delete)
