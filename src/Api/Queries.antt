-- ===== src/Api/Queries.antt =====
-- What a server reads from the queries of the lists.
use mathlib.Core.Option
use split_proxy.Base.{
  ◌≡◌, refl, ◌∙◌, ap, Text, String, Option, none, List, [], ◌∷◌, ◌++◌, arith, text_beq,
}
use split_proxy.Text.{trim, string_of, string_of_nat}
use split_proxy.Text.Queries.{IsWhole}
use split_proxy.Text.Ascii.{string_of_nat-IsAscii, string_of-IsAscii}
use split_proxy.Api.Calls.{PaginationParams, ProxyListParams, WorkerFilters}
use split_proxy.Api.Building.{param, trimmed_param, group_text, query_suffix}
use split_proxy.Api.RoutingApi
use split_proxy.Api.ProxyApi
use split_proxy.Api.WorkerApi
use split_proxy.Api.Reading.{Reads, entries-Reads, Reads-eq, searched, SearchIsWhole}
use split_proxy.Api.Entries.{
  nonempty, Present, entries, first_of-none, param-entries, trimmed_param-entries,
  guid_param-entries, param-entries_last, trimmed_param-entries_last, map-IsWhole, nonempty-IsWhole,
  group_text-IsAscii,
}

module _ (p : PaginationParams) where
  abbrev group_entries : List (String × Option Text)
  group_entries = ("group", Option.map group_text p.group) ∷ []

  abbrev search_entries : List (String × Option Text)
  search_entries = ("search", searched p.search) ∷ group_entries

  abbrev size_entries : List (String × Option Text)
  size_entries = ("page_size", Option.map string_of_nat p.page_size) ∷ search_entries

  abbrev routing_entries : List (String × Option Text)
  routing_entries = ("page", Option.map string_of p.page) ∷ size_entries

  query_params-entries : RoutingApi.query_params p ≡ entries routing_entries
  unfolding RoutingApi.query_params
  query_params-entries =
      ap (λ t. param "page" string_of p.page ++ t)
        (ap (λ t. param "page_size" string_of_nat p.page_size ++ t)
            (ap (λ t. trimmed_param "search" p.search ++ t)
                (param-entries_last "group" group_text p.group)
              ∙ trimmed_param-entries group_entries "search" p.search)
          ∙ param-entries search_entries "page_size" string_of_nat p.page_size)
      ∙ param-entries size_entries "page" string_of p.page

  pub build_query-Reads :
      SearchIsWhole p.search
      → Reads
          (RoutingApi.build_query p)
          (Option.map string_of p.page)
          (Option.map string_of_nat p.page_size)
          (searched p.search)
          (Option.map group_text p.group)
          none
  unfolding RoutingApi.build_query text_beq
  build_query-Reads h =
      Reads-eq
        (entries-Reads routing_entries (RoutingApi.build_query p)
          (ap query_suffix query_params-entries)
          (
            (omega arith, map-IsWhole string_of p.page string_of-IsAscii),
            (
              (omega arith, map-IsWhole string_of_nat p.page_size string_of_nat-IsAscii),
              (
                (omega arith, nonempty-IsWhole (Option.map trim p.search) h),
                ((omega arith, map-IsWhole group_text p.group group_text-IsAscii), tt),
              ),
            ),
          ))
        (first_of-none (Option.map string_of p.page))
        (first_of-none (Option.map string_of_nat p.page_size)) (first_of-none (searched p.search))
        (first_of-none (Option.map group_text p.group)) refl

module _ (p : ProxyListParams) where
  abbrev proxy_search : List (String × Option Text)
  proxy_search = ("search", searched p.search) ∷ []

  abbrev proxy_size : List (String × Option Text)
  proxy_size = ("page_size", Option.map string_of_nat p.page_size) ∷ proxy_search

  abbrev proxy_entries : List (String × Option Text)
  proxy_entries = ("page", Option.map string_of_nat p.page) ∷ proxy_size

  proxy_query-entries : ProxyApi.build_query p ≡ query_suffix (entries proxy_entries)
  unfolding ProxyApi.build_query
  proxy_query-entries = ap query_suffix (
      ap (λ t. param "page" string_of_nat p.page ++ t)
        (ap (λ t. param "page_size" string_of_nat p.page_size ++ t)
            (trimmed_param-entries_last "search" p.search)
          ∙ param-entries proxy_search "page_size" string_of_nat p.page_size)
      ∙ param-entries proxy_size "page" string_of_nat p.page)

  pub proxy_query-Reads :
      SearchIsWhole p.search
      → Reads
          (ProxyApi.build_query p)
          (Option.map string_of_nat p.page)
          (Option.map string_of_nat p.page_size)
          (searched p.search)
          none
          none
  unfolding text_beq
  proxy_query-Reads h =
      Reads-eq
        (entries-Reads proxy_entries (ProxyApi.build_query p) proxy_query-entries (
          (omega arith, map-IsWhole string_of_nat p.page string_of_nat-IsAscii),
          (
            (omega arith, map-IsWhole string_of_nat p.page_size string_of_nat-IsAscii),
            ((omega arith, nonempty-IsWhole (Option.map trim p.search) h), tt),
          ),
        ))
        (first_of-none (Option.map string_of_nat p.page))
        (first_of-none (Option.map string_of_nat p.page_size)) (first_of-none (searched p.search))
        refl refl

module _ (p : WorkerFilters) where
  abbrev worker_size : List (String × Option Text)
  worker_size = ("page_size", Option.map string_of_nat p.page_size) ∷ []

  abbrev worker_page : List (String × Option Text)
  worker_page = ("page", Option.map string_of_nat p.page) ∷ worker_size

  abbrev worker_group : List (String × Option Text)
  worker_group = ("group", Option.map group_text p.group) ∷ worker_page

  abbrev worker_entries : List (String × Option Text)
  worker_entries = ("guid", nonempty p.guid) ∷ worker_group

  worker_query-entries : WorkerApi.worker_query p ≡ query_suffix (entries worker_entries)
  unfolding WorkerApi.worker_query
  worker_query-entries = ap query_suffix (
      ap (λ t. WorkerApi.guid_param p.guid ++ t)
        (ap (λ t. param "group" group_text p.group ++ t)
            (ap (λ t. param "page" string_of_nat p.page ++ t)
                (param-entries_last "page_size" string_of_nat p.page_size)
              ∙ param-entries worker_size "page" string_of_nat p.page)
          ∙ param-entries worker_page "group" group_text p.group)
      ∙ guid_param-entries worker_group p.guid)

  pub worker_query-Reads :
      Present IsWhole p.guid
      → Reads
          (WorkerApi.worker_query p)
          (Option.map string_of_nat p.page)
          (Option.map string_of_nat p.page_size)
          none
          (Option.map group_text p.group)
          (nonempty p.guid)
  unfolding text_beq
  worker_query-Reads h =
      Reads-eq
        (entries-Reads worker_entries (WorkerApi.worker_query p) worker_query-entries (
          (omega arith, nonempty-IsWhole p.guid h),
          (
            (omega arith, map-IsWhole group_text p.group group_text-IsAscii),
            (
              (omega arith, map-IsWhole string_of_nat p.page string_of_nat-IsAscii),
              ((omega arith, map-IsWhole string_of_nat p.page_size string_of_nat-IsAscii), tt),
            ),
          ),
        ))
        (first_of-none (Option.map string_of_nat p.page))
        (first_of-none (Option.map string_of_nat p.page_size)) refl
        (first_of-none (Option.map group_text p.group)) (first_of-none (nonempty p.guid))

-- Where the search texts and the GUID hold no lone surrogate, what follows the path of a list is
-- nothing or a query behind a question mark, and a server that decodes it reads the page, the page size, the trimmed search, the group and the GUID that the caller
-- has given, and reads none that the caller has not given or that is empty.
pub list_queries-Reads :
    (p : PaginationParams) (q : ProxyListParams) (r : WorkerFilters)
    → SearchIsWhole p.search
    → SearchIsWhole q.search
    → Present IsWhole r.guid
    → Reads
        (RoutingApi.build_query p)
        (Option.map string_of p.page)
        (Option.map string_of_nat p.page_size)
        (searched p.search)
        (Option.map group_text p.group)
        none
      × Reads
          (ProxyApi.build_query q)
          (Option.map string_of_nat q.page)
          (Option.map string_of_nat q.page_size)
          (searched q.search)
          none
          none
      × Reads
          (WorkerApi.worker_query r)
          (Option.map string_of_nat r.page)
          (Option.map string_of_nat r.page_size)
          none
          (Option.map group_text r.group)
          (nonempty r.guid)
list_queries-Reads p q r hp hq hr =
    (build_query-Reads p hp, proxy_query-Reads q hq, worker_query-Reads r hr)
