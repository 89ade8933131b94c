-- ===== src/Proxies/Paging.antt =====
-- The page number of `ProxiesPage` in all runs, and where a deletion leaves it.
use split_proxy.Base.{
  ℕ, ◌+◌, ◌-◌, ◌*◌, ◌≤◌, ◌<◌, ◌≡◌, ◌⊎◌, Bool, List, Option, none, some, arith, inl, inr, Bool-cases,
  ltb,
}
use split_proxy.Api.{ProxyItem, Outcome, fulfilled, rejected}
use split_proxy.Script.{modify}
use native.Mathlib.Nat.{le_refl, div-add-mod}
use split_proxy.Script.Keeps.{Keeps, Keeps-modify, keeping}
use split_proxy.Script.Run.{Surroundings, run}
use split_proxy.Script.Compose.{run-Keeps}
use split_proxy.Proxies.Frame.{Ignores, reload-Keeps, report_bulk-Keeps}
use split_proxy.Script.Interleaving.{Reach, Reach-invariant}
use split_proxy.Proxies.{
  ProxiesPage, initial, ceil_div, max_page, Handler, reload, step_back, removed_one, remove_chosen,
  remove, bulk_removed, bulk_remove, confirm_bulk_remove, clear_selection, handle_search_change,
  handle_page_change, search_debounced, Input, respond, Starts, by, Enabled, load_effect,
  debounce_timer, type_search, change_page, change_selection, click_add, click_clear_selection,
  click_bulk_delete, click_edit, click_delete, cancel_delete, confirm_delete,
}

abbrev pub InRange : ProxiesPage → Type 0
InRange s = (1 ≤ s.current_page) × (1 ≤ s.page_size)

max_page-ge-one : (total removed page_size : ℕ) → 1 ≤ max_page total removed page_size
unfolding max_page
max_page-ge-one total removed page_size = omega arith

set_current_page-Keeps :
    (n : ℕ) → 1 ≤ n → Keeps InRange (modify (λ s. record s { current_page = n }))
set_current_page-Keeps n h = Keeps-modify (λ s i. (h, i.1))

set_page_size-Keeps : (n : ℕ) → 1 ≤ n → Keeps InRange (modify (λ s. record s { page_size = n }))
set_page_size-Keeps n h = Keeps-modify (λ s i. (i.0, h))

InRange-Ignores : Ignores InRange
InRange-Ignores = record { on_loading = λ b s i. i; on_proxies = λ r s i. i; on_total = λ n s i. i }

step_back-Keeps : (c : ProxiesPage) (removed : ℕ) → Keeps InRange (step_back c removed)
unfolding step_back
step_back-Keeps c removed =
    search (keeping, set_current_page-Keeps, max_page-ge-one, reload-Keeps InRange-Ignores)

removed_one-Keeps : (c : ProxiesPage) (o : Outcome (Unit {0})) → Keeps InRange (removed_one c o)
unfolding removed_one clear_selection
removed_one-Keeps c (fulfilled _) = search (keeping, step_back-Keeps) depth 8
removed_one-Keeps c (rejected e) = search keeping

remove_chosen-Keeps : (c : ProxiesPage) (o : Option ProxyItem) → Keeps InRange (remove_chosen c o)
unfolding remove_chosen
remove_chosen-Keeps c none = search keeping
remove_chosen-Keeps c (some item) = search (keeping, removed_one-Keeps) depth 8

bulk_removed-Keeps : (c : ProxiesPage) (oks : List Bool) → Keeps InRange (bulk_removed c oks)
unfolding bulk_removed
bulk_removed-Keeps c oks = search (keeping, report_bulk-Keeps, step_back-Keeps) depth 8

bulk_remove-Keeps : (c : ProxiesPage) → Keeps InRange (bulk_remove c)
unfolding bulk_remove
bulk_remove-Keeps c = search (keeping, bulk_removed-Keeps) depth 8

confirm_bulk_remove-Keeps : (c : ProxiesPage) → Keeps InRange (confirm_bulk_remove c)
unfolding confirm_bulk_remove
confirm_bulk_remove-Keeps c = search (keeping, bulk_remove-Keeps)

respond-Keeps :
    (c : ProxiesPage) (i : Input) → InRange c → Enabled c i → Keeps InRange (respond c i)
unfolding respond search_debounced handle_search_change handle_page_change clear_selection remove
respond-Keeps c load_effect v e = reload-Keeps InRange-Ignores c
respond-Keeps c debounce_timer v e = search (keeping, set_current_page-Keeps, le_refl) depth 8
respond-Keeps c (type_search value) v e = search keeping
respond-Keeps c (change_page page size) v e =
    search (keeping, set_current_page-Keeps, set_page_size-Keeps, e.0, e.1, le_refl) depth 8
respond-Keeps c (change_selection keys) v e = search keeping
respond-Keeps c click_add v e = search keeping
respond-Keeps c click_clear_selection v e = search keeping
respond-Keeps c click_bulk_delete v e = confirm_bulk_remove-Keeps c
respond-Keeps c (click_edit item) v e = search keeping
respond-Keeps c (click_delete item) v e = search keeping
respond-Keeps c cancel_delete v e = search keeping
respond-Keeps c confirm_delete v e = remove_chosen-Keeps c c.deleting_proxy

Starts-Keeps : (c : ProxiesPage) (h : Handler) → InRange c → Starts c h → Keeps InRange h
Starts-Keeps c h v (by i e) = respond-Keeps c i v e

-- In every interleaving of the page's handlers, on any answers of the server, the current page and
-- the page size are at least 1.
pub Reach-InRange : {s : ProxiesPage} {hs : List Handler} → Reach Starts initial s hs → InRange s
Reach-InRange r = Reach-invariant InRange Starts Starts-Keeps initial (omega arith) r

-- The last page of `r` rows begins before the last row.
ceil_div-start : (r size : ℕ) → 1 ≤ size → 1 ≤ r → (ceil_div r size - 1) * size < r
unfolding ceil_div
ceil_div-start r size hs hr = grind (arith, div-add-mod (r + size - 1) size)

abbrev pub HasRows : ℕ → ℕ → ℕ → Type 0
HasRows rows page_size page = (page ≡ 1) ⊎ ((page - 1) * page_size < rows)

max_page-HasRows :
    (total removed size page : ℕ)
    → 1 ≤ size
    → page ≤ max_page total removed size
    → 1 ≤ page
    → HasRows (total - removed) size page
unfolding max_page
max_page-HasRows total removed size page hs h one =
    grind (arith, ceil_div-start (total - removed) size hs)

OnPage-Ignores : (page : ℕ) → Ignores (λ s. s.current_page ≡ page)
OnPage-Ignores page = record {
  on_loading = λ b s i. i;
  on_proxies = λ r s i. i;
  on_total = λ n s i. i;
}

-- From a page and a page size that are at least 1, after a deletion of `removed` rows that ran
-- alone, the page shows a row of those that were left, or is the first one.
pub step_back-HasRows :
    {W : Type 0} (u : Surroundings W) (c s : ProxiesPage) (removed : ℕ) (w : W)
    → InRange c
    → s.current_page ≡ c.current_page
    → HasRows (c.total - removed) c.page_size (run u (step_back c removed) s w).state.current_page
unfolding step_back
step_back-HasRows u c s removed w v same =
    elim (Bool-cases (ltb (max_page c.total removed c.page_size) c.current_page)) [
      | inl gone ↦ rw gone (
          max_page-HasRows c.total removed c.page_size _ v.1 (le_refl _)
            (max_page-ge-one c.total removed c.page_size))
      | inr there ↦
          rw
            (
              there,
              run-Keeps u {I = λ s. s.current_page ≡ c.current_page} (reload c) s w
                  (reload-Keeps (OnPage-Ignores c.current_page) c) same,
            )
            (max_page-HasRows c.total removed c.page_size c.current_page v.1 (ground arith) v.0)
    ]
