-- ===== src/Tests/Urls.antt =====
-- URLs, queries and tabs at concrete inputs.
use mathlib.Core.Option
use split_proxy.Base.{◌≡◌, refl, pos, some, none, [], ◌∷◌, arith}
use split_proxy.Text.{
  codes, trim, trim_start, trim_end, is_space, string_of, string_of_nat, params_to_string,
}
use split_proxy.Text.Decoding.{read_query}
use split_proxy.Text.Ascii.{IsAscii-IsWhole}
use split_proxy.Api.{PaginationParams, ProxyListParams, WorkerFilters, no_group}
use split_proxy.Api.Building.{plain_call, group_text}
use split_proxy.Api.Client.{patch, number}
use split_proxy.Api.RoutingApi
use split_proxy.Api.ProxyApi
use split_proxy.Api.WorkerApi
use split_proxy.Api.Reading.{Reads, searched}
use split_proxy.Api.Queries.{list_queries-Reads}
use split_proxy.Api.Segments.{by_update_domain}
use split_proxy.Api.Decoded.{EndsIn, route-EndsIn}
use split_proxy.Splitting.Tabs.{Params, get_value, active_tab, change_tab}
use split_proxy.Splitting.Tabs.Laws.{change_tab-active_tab}
use split_proxy.Tests.Session.{a_route-Endpoint}

route-EndsIn_example : EndsIn (codes "a/b") "/routing/domains/" (codes "/routing/domains/a%2Fb")
route-EndsIn_example =
    route-EndsIn (codes "a/b") 1 "/routing/domains/" (RoutingApi.update_domain (codes "a/b") 1)
      (codes "/routing/domains/a%2Fb") (plain_call patch (("worker_group", number 1) ∷ []))
      (omega arith) by_update_domain a_route-Endpoint

-- A query with another parameter.
abbrev other_query : Params
other_query = (codes "q", codes "x y") ∷ []

change_tab-active_tab_example :
    (read_query (params_to_string (change_tab (codes "cidrs") other_query))
      ≡ some (change_tab (codes "cidrs") other_query))
    × ((active_tab (change_tab (codes "cidrs") other_query) ≡ codes "cidrs")
        × (get_value (codes "q") (change_tab (codes "cidrs") other_query)
            ≡ get_value (codes "q") other_query))
change_tab-active_tab_example =
    change_tab-active_tab (codes "cidrs") (codes "q") other_query
      (IsAscii-IsWhole (codes "cidrs") (omega arith))
      ((IsAscii-IsWhole (codes "q") (omega arith), IsAscii-IsWhole (codes "x y") (omega arith)), tt)
      (λ e. cc e)

abbrev routing_params : PaginationParams
routing_params = record {
  page = some (pos 2);
  page_size = none;
  search = some (codes " a&b ");
  group = some no_group;
}

abbrev proxy_params : ProxyListParams
proxy_params = record { page = some 3; page_size = some 50; search = some (codes "x=y") }

abbrev worker_params : WorkerFilters
worker_params = record {
  guid = some (codes "g+1");
  group = none;
  page = some 1;
  page_size = some 10;
}

trimmed_search : trim (codes " a&b ") ≡ codes "a&b"
unfolding trim trim_start trim_end is_space
trimmed_search = refl

trimmed_proxy_search : trim (codes "x=y") ≡ codes "x=y"
unfolding trim trim_start trim_end is_space
trimmed_proxy_search = refl

list_queries-Reads_example :
    Reads
      (RoutingApi.build_query routing_params)
      (Option.map string_of (some (pos 2)))
      none
      (searched routing_params.search)
      (Option.map group_text (some no_group))
      none
    × Reads
        (ProxyApi.build_query proxy_params)
        (Option.map string_of_nat (some 3))
        (Option.map string_of_nat (some 50))
        (searched proxy_params.search)
        none
        none
    × Reads
        (WorkerApi.worker_query worker_params)
        (Option.map string_of_nat (some 1))
        (Option.map string_of_nat (some 10))
        none
        none
        (some (codes "g+1"))
list_queries-Reads_example =
    list_queries-Reads routing_params proxy_params worker_params
      (rw trimmed_search (IsAscii-IsWhole (codes "a&b") (omega arith)))
      (rw trimmed_proxy_search (IsAscii-IsWhole (codes "x=y") (omega arith)))
      (IsAscii-IsWhole (codes "g+1") (omega arith))
