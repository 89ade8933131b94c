-- ===== src/Proxies/Bulk.antt =====
-- The bulk deletion of `ProxiesPage`, from the confirmed dialog to the reload.
use split_proxy.Base.{
  ℕ, ◌≡◌, ◌≢◌, refl, ◌∙◌, Bool, false, not, List, [], map, length, filter, select, arith, nat_beq,
  Bool-cases, inl, inr,
}
use split_proxy.Api.{remove_proxy}
use split_proxy.Script.{◌>>◌}
use split_proxy.Script.Run.{Surroundings, run}
use split_proxy.Script.Keeps.{Keeps, keeping}
use split_proxy.Script.Compose.{run-bind, run-Keeps, Accepts, statuses-serve_all, select-map-not}
use split_proxy.Proxies.Frame.{Ignores, reload-Keeps, report_bulk-Keeps}
use split_proxy.Proxies.{ProxiesPage, step_back, report_bulk, bulk_removed, bulk_remove}

module _ (keys : List ℕ) where
  -- Nothing after the deletions touches the selection.
  abbrev Selected : ProxiesPage → Type 0
  Selected s = s.selected_row_keys ≡ keys

  Selected-Ignores : Ignores Selected
  Selected-Ignores = record {
    on_loading = λ b s i. i;
    on_proxies = λ r s i. i;
    on_total = λ n s i. i;
  }

  step_back-Keeps-Selected : (c : ProxiesPage) (n : ℕ) → Keeps Selected (step_back c n)
  unfolding step_back
  step_back-Keeps-Selected c n = search (keeping, reload-Keeps Selected-Ignores)

  finish-Keeps-Selected :
      (c : ProxiesPage) (m n : ℕ) → Keeps Selected (report_bulk m n >> step_back c m)
  finish-Keeps-Selected c m n = search (keeping, report_bulk-Keeps, step_back-Keeps-Selected)

module _ {W : Type 0} (u : Surroundings W) where
  bulk_removed-selected :
      (c s : ProxiesPage) (oks : List Bool) (w : W)
      → (run u (bulk_removed c oks) s w).state.selected_row_keys
        ≡ select (map not oks) c.selected_row_keys
  unfolding bulk_removed
  bulk_removed-selected c s oks w =
      let failed = select (map not oks) c.selected_row_keys in
      let n = length (select oks c.selected_row_keys) in
      rw run-bind (
        run-Keeps u {I = Selected failed} (report_bulk n (length failed) >> step_back c n) _ _
          (finish-Keeps-Selected failed c n (length failed)) refl)

  -- A confirmed bulk deletion of a selection that is not empty, on a server that accepts the
  -- deletions of exactly the ids with `ok id`: the ids that stay selected are those of the
  -- selection that were refused, and the bulk action is over.
  pub bulk_remove-selected :
      (c s : ProxiesPage) (w : W) (ok : ℕ → Bool)
      → Accepts u remove_proxy ok
      → c.selected_row_keys ≢ []
      → let r = run u (bulk_remove c) s w in
        (r.state.selected_row_keys ≡ filter (λ id. not (ok id)) c.selected_row_keys)
        × (r.state.bulk_delete_loading ≡ false)
  unfolding bulk_remove
  bulk_remove-selected c s w ok h ne = elim (Bool-cases (nat_beq (length c.selected_row_keys) 0)) [
    | inl empty ↦ absurd (ne (ground arith))
    | inr some_keys ↦ rw some_keys (
        simp (run-bind, statuses-serve_all u remove_proxy ok c.selected_row_keys w h)
          (bulk_removed-selected c _ _ _ ∙ select-map-not ok c.selected_row_keys, refl))
  ]
