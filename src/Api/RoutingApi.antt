-- ===== src/Api/RoutingApi.antt =====
-- The URL, the method and the body of each function of admin/front/src/shared/api/routingApi.tsx.
use split_proxy.Base.{ℕ, Text, List, [], ◌∷◌, ◌++◌}
use split_proxy.Text.{string_of, string_of_nat}
use split_proxy.Api.Calls.{PaginationParams}
use split_proxy.Api.Client.{get, post, patch, delete, number, texts}
use split_proxy.Api.Building.{
  param, trimmed_param, group_text, query_suffix, plain_call, bare_call, Endpoint, under, at_path,
}

unfoldable pub query_params : PaginationParams → List (Text × Text)
query_params p =
    param "page" string_of p.page
    ++ (param "page_size" string_of_nat p.page_size
        ++ (trimmed_param "search" p.search ++ param "group" group_text p.group))

unfoldable pub build_query : PaginationParams → Text
build_query p = query_suffix (query_params p)

unfoldable pub get_list_domains : PaginationParams → Endpoint
get_list_domains params = at_path "/routing/domains" (build_query params) (bare_call get)

unfoldable pub get_list_cidr : PaginationParams → Endpoint
get_list_cidr params = at_path "/routing/cidr" (build_query params) (bare_call get)

unfoldable pub add_domains : List Text → ℕ → Endpoint
add_domains patterns worker_group =
    at_path "/routing/domains" []
      (plain_call post (("patterns", texts patterns) ∷ ("worker_group", number worker_group) ∷ []))

unfoldable pub add_cidrs : List Text → ℕ → Endpoint
add_cidrs cidrs worker_group =
    at_path "/routing/cidr" []
      (plain_call post (("cidrs", texts cidrs) ∷ ("worker_group", number worker_group) ∷ []))

unfoldable pub update_domain : Text → ℕ → Endpoint
update_domain pattern worker_group =
    under "/routing/domains/" pattern
      (plain_call patch (("worker_group", number worker_group) ∷ []))

unfoldable pub update_cidr : Text → ℕ → Endpoint
update_cidr cidr worker_group =
    under "/routing/cidr/" cidr (plain_call patch (("worker_group", number worker_group) ∷ []))

unfoldable pub delete_domain : Text → Endpoint
delete_domain pattern = under "/routing/domains/" pattern (bare_call delete)

unfoldable pub delete_cidr : Text → Endpoint
delete_cidr cidr = under "/routing/cidr/" cidr (bare_call delete)

unfoldable pub clear_all_cidrs : Endpoint
clear_all_cidrs = at_path "/routing/clear_cidr" [] (bare_call delete)

unfoldable pub get_default_route : Endpoint
get_default_route = at_path "/routing/default" [] (bare_call get)

unfoldable pub update_default_route : ℕ → Endpoint
update_default_route worker_group =
    at_path "/routing/default" [] (plain_call patch (("worker_group", number worker_group) ∷ []))
