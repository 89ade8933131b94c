-- ===== src/Splitting/Settings.antt =====
-- What both route tables of the page use: page size, group filter, and the bulk reports.
use split_proxy.Base.{ℕ, ◌-◌, Option, none, some, [], ◌∷◌, ltb, nat_beq, if◌then◌else◌}
use split_proxy.Api.{RouteGroupFilter, group_id, no_group}
use split_proxy.Script.{Script, show_message, success, warning, failure, translated}

abbrev pub default_route_page_size : ℕ
default_route_page_size = 100

-- `number | "none" | "all"`
pub data GroupFilter : Type 0 where
  everything ungrouped : GroupFilter
  of_group : ℕ → GroupFilter

-- `...(filter !== "all" ? { group: filter } : {})`
unfoldable pub group_param : GroupFilter → Option RouteGroupFilter
group_param everything = none
group_param ungrouped = some no_group
group_param (of_group g) = some (group_id g)

module _ {S : Type 0} where
  -- The message after a change of group of `total` routes.
  unfoldable pub report_group_change : ℕ → ℕ → Script S (Unit {0})
  report_group_change succeeded total =
      if nat_beq succeeded total
      then show_message success
          (translated "routingPage.bulkGroupUpdated" (("count", succeeded) ∷ []))
      else if ltb 0 succeeded
      then show_message warning (
          translated "routingPage.bulkGroupPartial"
            (("succeeded", succeeded) ∷ ("failed", total - succeeded) ∷ []))
      else show_message failure (translated "routingPage.bulkGroupFailed" [])

  -- The message after the deletion of `total` routes.
  unfoldable pub report_deletion : ℕ → ℕ → Script S (Unit {0})
  report_deletion succeeded total =
      if nat_beq succeeded total
      then show_message success (translated "routingPage.bulkDeleted" (("count", succeeded) ∷ []))
      else if ltb 0 succeeded
      then show_message warning (
          translated "routingPage.bulkDeletePartial"
            (("succeeded", succeeded) ∷ ("failed", total - succeeded) ∷ []))
      else show_message failure (translated "routingPage.bulkDeleteFailed" [])
