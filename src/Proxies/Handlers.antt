-- ===== src/Proxies/Handlers.antt =====
-- The handlers of `ProxiesPage`. The first argument `c` is the state that the handler's closure
-- captured at its render; setters act on the state at the time of the call.
use split_proxy.Base.{
  ℕ, Bool, true, false, Text, Option, none, some, List, [], ◌∷◌, map, length, select, not, ltb,
  nat_beq, text_beq, if◌then◌else◌,
}
use split_proxy.Api.{ProxyItem, Paginated, get_proxies, remove_proxy, Outcome, fulfilled, rejected}
use split_proxy.Script.{
  Script, pure, skip, modify, show_message, call, all_settled, confirm_then, ◌>>=◌, ◌>>◌, success,
  warning, failure, translated, describe, statuses,
}
use split_proxy.Text.{trim}
use split_proxy.Proxies.State.{ProxiesPage, max_page}

abbrev pub Handler : Type 0
Handler = Script ProxiesPage (Unit {0})

-- The debounced effect, when its timer fires.
unfoldable pub search_debounced : ProxiesPage → Handler
search_debounced c = do
  modify (λ s.
      let normalized_search = trim c.search_input in
      record s {
        search = if text_beq s.search normalized_search then s.search else normalized_search;
      })
  modify (λ s. record s { current_page = 1 })

unfoldable pub loaded :
    Outcome (Paginated ProxyItem) → Script ProxiesPage (Option (Paginated ProxyItem))
loaded (fulfilled response) = do
  modify (λ s. record s { proxies = response.results })
  modify (λ s. record s { total = response.count })
  pure (some response)
loaded (rejected e) = do
  show_message failure (translated "proxiesPage.proxiesNotLoaded" [])
  pure none

unfoldable pub load_proxies : ProxiesPage → Script ProxiesPage (Option (Paginated ProxyItem))
load_proxies c = do
  modify (λ s. record s { loading = true })
  response ← call (
      get_proxies (record {
        page = some c.current_page;
        page_size = some c.page_size;
        search = some c.search;
      }))
  result ← loaded response
  modify (λ s. record s { loading = false })
  pure result

-- `await loadProxies();`
unfoldable pub reload : ProxiesPage → Handler
reload c = do load_proxies c; skip

unfoldable pub clear_selection : Handler
clear_selection = modify (λ s. record s { selected_row_keys = [] })

unfoldable pub handle_search_change : Text → Handler
handle_search_change value = do modify (λ s. record s { search_input = value }); clear_selection

unfoldable pub handle_page_change : ProxiesPage → ℕ → ℕ → Handler
handle_page_change c page next_page_size = do
  clear_selection
  if not (nat_beq next_page_size c.page_size)
      then (do
        modify (λ s. record s { page_size = next_page_size })
        modify (λ s. record s { current_page = 1 }))
      else modify (λ s. record s { current_page = page })

-- After `removed` deletions: back to the last page if the current one is gone, or a reload.
unfoldable pub step_back : ProxiesPage → ℕ → Handler
step_back c removed =
    let last = max_page c.total removed c.page_size in
    if ltb last c.current_page then modify (λ s. record s { current_page = last }) else reload c

unfoldable pub removed_one : ProxiesPage → Outcome (Unit {0}) → Handler
removed_one c (fulfilled _) = do
  show_message success (translated "proxiesPage.proxyDeleted" [])
  modify (λ s. record s { deleting_proxy = none })
  clear_selection
  step_back c 1
removed_one c (rejected e) = show_message failure (describe e "proxiesPage.deletionError")

unfoldable pub remove_chosen : ProxiesPage → Option ProxyItem → Handler
remove_chosen c none = skip
remove_chosen c (some item) = do
  modify (λ s. record s { delete_loading = true })
  r ← call (remove_proxy item.id)
  removed_one c r
  modify (λ s. record s { delete_loading = false })

unfoldable pub remove : ProxiesPage → Handler
remove c = remove_chosen c c.deleting_proxy

-- The message after a bulk deletion.
unfoldable pub report_bulk : ℕ → ℕ → Handler
report_bulk succeeded failed =
    if nat_beq failed 0
    then show_message success (translated "proxiesPage.bulkDeleted" (("count", succeeded) ∷ []))
    else if ltb 0 succeeded
    then show_message warning (
        translated "proxiesPage.bulkDeletePartial"
          (("success", succeeded) ∷ ("failed", failed) ∷ []))
    else show_message failure (translated "proxiesPage.bulkDeleteFailed" [])

unfoldable pub bulk_removed : ProxiesPage → List Bool → Handler
bulk_removed c oks = do
  let successful_ids = select oks c.selected_row_keys
  let failed_ids = select (map not oks) c.selected_row_keys
  modify (λ s. record s { selected_row_keys = failed_ids })
  report_bulk (length successful_ids) (length failed_ids)
  step_back c (length successful_ids)

-- Row keys are the numeric ids, so `map(Number)` changes nothing.
unfoldable pub bulk_remove : ProxiesPage → Handler
bulk_remove c = if nat_beq (length c.selected_row_keys) 0 then skip else do
  modify (λ s. record s { bulk_delete_loading = true })
  results ← all_settled (map remove_proxy c.selected_row_keys)
  bulk_removed c (statuses (map remove_proxy c.selected_row_keys) results)
  modify (λ s. record s { bulk_delete_loading = false })

unfoldable pub confirm_bulk_remove : ProxiesPage → Handler
confirm_bulk_remove c =
    if nat_beq (length c.selected_row_keys) 0
    then skip
    else confirm_then
        (record {
          title = "proxiesPage.bulkDeleteTitle";
          content = "proxiesPage.bulkDeleteConfirm";
          count = some (length c.selected_row_keys);
          ok_text = "common.delete";
          cancel_text = "common.cancel";
        })
        (bulk_remove c)
