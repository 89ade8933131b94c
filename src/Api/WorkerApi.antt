-- ===== src/Api/WorkerApi.antt =====
-- The URL, the method and the body of each function of admin/front/src/shared/api/workerApi.ts.
use split_proxy.Base.{ℕ, Text, Option, none, some, List, [], ◌∷◌, ◌++◌}
use split_proxy.Text.{codes, string_of_nat}
use split_proxy.Api.Calls.{WorkerFilters}
use split_proxy.Api.Client.{get, patch, delete}
use split_proxy.Api.Building.{
  param, group_text, query_suffix, plain_call, bare_call, group_json, Endpoint, under, at_path,
}

-- `if (params?.guid) query.set("guid", params.guid);`
unfoldable pub guid_param : Option Text → List (Text × Text)
guid_param none = []
guid_param (some []) = []
guid_param (some (c ∷ s)) = (codes "guid", c ∷ s) ∷ []

unfoldable pub worker_query : WorkerFilters → Text
worker_query p = query_suffix (
    guid_param p.guid
    ++ (param "group" group_text p.group
        ++ (param "page" string_of_nat p.page ++ param "page_size" string_of_nat p.page_size)))

unfoldable pub get_workers : WorkerFilters → Endpoint
get_workers params = at_path "/worker" (worker_query params) (bare_call get)

unfoldable pub get_worker : Text → Endpoint
get_worker guid = at_path "/worker/" guid (bare_call get)

unfoldable pub update_worker : Text → Option ℕ → Endpoint
update_worker guid group =
    under "/worker/" guid (plain_call patch (("group", group_json group) ∷ []))

unfoldable pub remove_worker : Text → Endpoint
remove_worker guid = at_path "/worker/" guid (bare_call delete)
