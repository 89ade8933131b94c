-- ===== src/Splitting/Cidrs/Handlers.antt =====
-- The cidr handlers of `SplittingPage`. The argument `c` is the state that the handler's closure
-- captured at its render; setters act on the state at the time of the call.
use split_proxy.Base.{
  ℕ, pos, ◌-ℤ◌, ltb_ℤ, beq_ℤ, Bool, true, false, not, ◌&&◌, Text, text_beq, Option, none, some,
  List, [], map, filter, any, length, select, count_true, nat_beq, if◌then◌else◌,
}
use split_proxy.Api.{
  CidrRule, Paginated, get_list_cidr, add_cidrs, update_cidr, delete_cidr, clear_all_cidrs, Outcome,
  fulfilled, rejected,
}
use split_proxy.Script.{
  Script, skip, modify, show_message, call, all_settled, confirm_then, ◌>>=◌, ◌>>◌, success,
  failure, translated, describe, statuses,
}
use split_proxy.Text.{trim, lines}
use split_proxy.Splitting.Settings.{group_param, report_group_change, report_deletion}
use split_proxy.Splitting.Validation.{is_valid_cidr}
use split_proxy.Splitting.Cidrs.State.{CidrsTab}

abbrev pub Handler : Type 0
Handler = Script CidrsTab (Unit {0})

-- The debounced effect, when its timer fires.
unfoldable pub search_debounced : CidrsTab → Handler
search_debounced c = do
  modify (λ s. record s { cidr_search = trim c.cidr_search_input })
  modify (λ s. record s { cidr_page = pos 1 })

unfoldable pub cidrs_loaded : Outcome (Paginated CidrRule) → Handler
cidrs_loaded (fulfilled response) = do
  modify (λ s. record s { cidrs = response.results })
  modify (λ s. record s { cidr_total = response.count })
cidrs_loaded (rejected e) = show_message failure (describe e "routingPage.cidrsNotLoaded")

unfoldable pub load_cidrs : CidrsTab → Handler
load_cidrs c = do
  modify (λ s. record s { loading_cidrs = true })
  response ← call (
      get_list_cidr (record {
        page = some c.cidr_page;
        page_size = some c.cidr_page_size;
        search = some c.cidr_search;
        group = group_param c.cidr_group_filter;
      }))
  cidrs_loaded response
  modify (λ s. record s { loading_cidrs = false })

-- The trimmed lines of the text area that are not empty.
unfoldable pub entered_cidrs : Text → List Text
entered_cidrs text = filter (λ p. not (nat_beq (length p) 0)) (map trim (lines text))

-- A reload on the first page, or else a change to it, which reloads by the effect.
unfoldable pub to_first_page : CidrsTab → Handler
to_first_page c =
    if beq_ℤ c.cidr_page (pos 1) then load_cidrs c else modify (λ s. record s { cidr_page = pos 1 })

unfoldable pub cidrs_added : CidrsTab → Outcome (Unit {0}) → Handler
cidrs_added c (fulfilled _) = do
  show_message success (translated "routingPage.cidrAdded" [])
  modify (λ s. record s { new_cidr = [] })
  modify (λ s. record s { cidr_group = none })
  to_first_page c
cidrs_added c (rejected e) = show_message failure (describe e "routingPage.cidrAddError")

unfoldable pub submit_cidrs : CidrsTab → List Text → Option ℕ → Handler
submit_cidrs c cidrs none = show_message failure (translated "routingPage.selectGroup" [])
submit_cidrs c cidrs (some group) = do
  modify (λ s. record s { adding_cidr = true })
  r ← call (add_cidrs cidrs group)
  cidrs_added c r
  modify (λ s. record s { adding_cidr = false })

unfoldable pub handle_add_cidrs : CidrsTab → Handler
handle_add_cidrs c =
    let cidr_list = entered_cidrs c.new_cidr in
    if nat_beq (length cidr_list) 0
    then show_message failure (translated "routingPage.invalidCidr" [])
    else if any (λ cidr. not (is_valid_cidr cidr)) cidr_list
    then show_message failure (translated "routingPage.invalidCidr" [])
    else submit_cidrs c cidr_list c.cidr_group

unfoldable pub all_cidrs_cleared : CidrsTab → Outcome (Unit {0}) → Handler
all_cidrs_cleared c (fulfilled _) = do
  modify (λ s. record s { selected_cidrs = [] })
  modify (λ s. record s { bulk_cidr_group = none })
  modify (λ s. record s { cidr_total = 0 })
  show_message success (translated "routingPage.allCidrsCleared" [])
  to_first_page c
all_cidrs_cleared c (rejected e) =
    show_message failure (describe e "routingPage.clearAllCidrsError")

-- `onOk` of the dialog below.
unfoldable pub clear_confirmed : CidrsTab → Handler
clear_confirmed c = do
  modify (λ s. record s { clearing_all_cidrs = true })
  r ← call clear_all_cidrs
  all_cidrs_cleared c r
  modify (λ s. record s { clearing_all_cidrs = false })

unfoldable pub handle_clear_all_cidrs : CidrsTab → Handler
handle_clear_all_cidrs c =
    if c.clearing_all_cidrs
    then skip
    else confirm_then
        (record {
          title = "routingPage.clearAllCidrsTitle";
          content = "routingPage.clearAllCidrsConfirm";
          count = none;
          ok_text = "routingPage.clearAllCidrs";
          cancel_text = "common.cancel";
        })
        (clear_confirmed c)

-- `item.cidr === cidr ? { ...item, worker_group: group } : item`
unfoldable pub with_group : Text → ℕ → CidrRule → CidrRule
with_group cidr group item =
    if text_beq item.cidr cidr then record item { worker_group = some group } else item

unfoldable pub cidr_group_changed : Text → ℕ → Outcome (Unit {0}) → Handler
cidr_group_changed cidr group (fulfilled _) = do
  modify (λ s. record s { cidrs = map (with_group cidr group) s.cidrs })
  show_message success (translated "routingPage.cidrGroupUpdated" [])
cidr_group_changed cidr group (rejected e) =
    show_message failure (describe e "routingPage.cidrGroupUpdateError")

unfoldable pub change_cidr_group : Text → Option ℕ → Handler
change_cidr_group cidr none = skip
change_cidr_group cidr (some group) = do
  r ← call (update_cidr cidr group)
  cidr_group_changed cidr group r

unfoldable pub cidr_removed : CidrsTab → Outcome (Unit {0}) → Handler
cidr_removed c (fulfilled _) = do
  show_message success (translated "routingPage.cidrDeleted" [])
  if nat_beq (length c.cidrs) 1 && ltb_ℤ (pos 1) c.cidr_page
      then modify (λ s. record s { cidr_page = s.cidr_page -ℤ pos 1 })
      else load_cidrs c
cidr_removed c (rejected e) = show_message failure (describe e "routingPage.cidrDeleteError")

unfoldable pub remove_cidr : CidrsTab → Text → Handler
remove_cidr c cidr = do
  modify (λ s. record s { deleting_cidr = some cidr })
  r ← call (delete_cidr cidr)
  cidr_removed c r
  modify (λ s. record s { deleting_cidr = none })

unfoldable pub selected_cidrs_changed : CidrsTab → List Bool → Handler
selected_cidrs_changed c oks = do
  modify (λ s. record s { bulk_cidr_loading = false })
  modify (λ s. record s { selected_cidrs = [] })
  modify (λ s. record s { bulk_cidr_group = none })
  load_cidrs c
  report_group_change (count_true oks) (length oks)

unfoldable pub change_cidrs_to : CidrsTab → Option ℕ → Handler
change_cidrs_to c none = skip
change_cidrs_to c (some group) = if nat_beq (length c.selected_cidrs) 0 then skip else do
  modify (λ s. record s { bulk_cidr_loading = true })
  let calls = map (λ cidr. update_cidr cidr group) c.selected_cidrs
  results ← all_settled calls
  selected_cidrs_changed c (statuses calls results)

unfoldable pub change_selected_cidrs_group : CidrsTab → Handler
change_selected_cidrs_group c = change_cidrs_to c c.bulk_cidr_group

unfoldable pub selected_cidrs_deleted : CidrsTab → List Bool → Handler
selected_cidrs_deleted c oks = do
  let failed_keys = select (map not oks) c.selected_cidrs
  modify (λ s. record s { bulk_cidr_loading = false })
  modify (λ s. record s { selected_cidrs = failed_keys })
  load_cidrs c
  report_deletion (count_true oks) (length oks)

-- `onOk` of the dialog below.
unfoldable pub delete_confirmed : CidrsTab → Handler
delete_confirmed c = do
  modify (λ s. record s { bulk_cidr_loading = true })
  results ← all_settled (map delete_cidr c.selected_cidrs)
  selected_cidrs_deleted c (statuses (map delete_cidr c.selected_cidrs) results)

unfoldable pub delete_selected_cidrs : CidrsTab → Handler
delete_selected_cidrs c =
    if nat_beq (length c.selected_cidrs) 0
    then skip
    else confirm_then
        (record {
          title = "routingPage.bulkDeleteTitle";
          content = "routingPage.bulkDeleteConfirm";
          count = some (length c.selected_cidrs);
          ok_text = "routingPage.bulkDelete";
          cancel_text = "common.cancel";
        })
        (delete_confirmed c)
