-- ===== src/Splitting/Cidrs/Bulk.antt =====
-- The bulk deletion of the selected ranges.
use split_proxy.Base.{
  ℕ, ◌≡◌, refl, ◌∙◌, Bool, false, not, Text, List, map, filter, select, count_true, length,
}
use split_proxy.Api.{delete_cidr}
use split_proxy.Script.{◌>>=◌, ◌>>◌}
use split_proxy.Script.Run.{Surroundings, run}
use split_proxy.Script.Keeps.{Keeps, keeping}
use split_proxy.Script.Compose.{run-bind, run-Keeps, Accepts, statuses-serve_all, select-map-not}
use split_proxy.Splitting.Settings.{report_deletion}
use split_proxy.Splitting.Cidrs.{CidrsTab, load_cidrs, selected_cidrs_deleted, delete_confirmed}
use split_proxy.Splitting.Cidrs.Frame.{Ignores, load_cidrs-Keeps, report_deletion-Keeps}

-- Nothing after the answers touches the selection and the bulk action's flag.
abbrev Settled : List Text → CidrsTab → Type 0
Settled keys s = (s.selected_cidrs ≡ keys) × (s.bulk_cidr_loading ≡ false)

Settled-Ignores : (keys : List Text) → Ignores (Settled keys)
Settled-Ignores keys = record {
  on_loading = λ b s i. i;
  on_cidrs = λ r s i. i;
  on_total = λ n s i. i;
}

deletion_finish-Keeps :
    (keys : List Text) (c : CidrsTab) (m n : ℕ)
    → Keeps (Settled keys) (load_cidrs c >> report_deletion m n)
deletion_finish-Keeps keys c m n =
    search (keeping, load_cidrs-Keeps (Settled-Ignores keys), report_deletion-Keeps)

module _ {W : Type 0} (u : Surroundings W) where
  deleted-selected :
      (c s : CidrsTab) (oks : List Bool) (w : W)
      → Settled
          (select (map not oks) c.selected_cidrs)
          (run u (selected_cidrs_deleted c oks) s w).state
  unfolding selected_cidrs_deleted ◌>>=◌
  deleted-selected c s oks w =
      let failed = select (map not oks) c.selected_cidrs in
      run-Keeps u {I = Settled failed}
        (load_cidrs c >> report_deletion (count_true oks) (length oks)) _ _
        (deletion_finish-Keeps failed c (count_true oks) (length oks)) (refl, refl)

  -- A confirmed deletion of the selected ranges, on a server that accepts the deletions of exactly
  -- the ranges with `ok cidr`: the ranges that stay selected are those that were refused,
  -- and the bulk action is over.
  pub delete_confirmed-selected_cidrs :
      (c s : CidrsTab) (w : W) (ok : Text → Bool)
      → Accepts u delete_cidr ok
      → let r = run u (delete_confirmed c) s w in
        (r.state.selected_cidrs ≡ filter (λ p. not (ok p)) c.selected_cidrs)
        × (r.state.bulk_cidr_loading ≡ false)
  unfolding delete_confirmed
  delete_confirmed-selected_cidrs c s w ok h =
      let d = deleted-selected c _ (map ok c.selected_cidrs) _ in
      simp (run-bind, statuses-serve_all u delete_cidr ok c.selected_cidrs w h)
        (d.0 ∙ select-map-not ok c.selected_cidrs, d.1)
