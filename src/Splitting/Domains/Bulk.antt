-- ===== src/Splitting/Domains/Bulk.antt =====
-- The bulk actions on the selected domains.
use split_proxy.Base.{
  ℕ, ◌≡◌, ◌≢◌, refl, ◌∙◌, Bool, false, not, Text, some, List, [], map, filter, select, count_true,
  length, arith, nat_beq, Bool-cases, inl, inr,
}
use split_proxy.Api.{delete_domain}
use split_proxy.Script.{◌>>=◌, ◌>>◌}
use split_proxy.Script.Run.{Surroundings, run}
use split_proxy.Script.Keeps.{Keeps, keeping}
use split_proxy.Script.Compose.{run-bind, run-Keeps, Accepts, statuses-serve_all, select-map-not}
use split_proxy.Splitting.Settings.{report_deletion, report_group_change}
use split_proxy.Splitting.Domains.{
  DomainsTab, load_domains, selected_domains_deleted, delete_confirmed, selected_domains_changed,
  change_domains_to,
}
use split_proxy.Splitting.Domains.Frame.{
  Ignores, load_domains-Keeps, report_deletion-Keeps, report_group_change-Keeps,
}

-- Nothing after the answers touches the selection and the bulk action's flag.
abbrev Settled : List Text → DomainsTab → Type 0
Settled keys s = (s.selected_domain_patterns ≡ keys) × (s.bulk_domain_loading ≡ false)

Settled-Ignores : (keys : List Text) → Ignores (Settled keys)
Settled-Ignores keys = record {
  on_loading = λ b s i. i;
  on_domains = λ r s i. i;
  on_total = λ n s i. i;
}

deletion_finish-Keeps :
    (keys : List Text) (c : DomainsTab) (m n : ℕ)
    → Keeps (Settled keys) (load_domains c >> report_deletion m n)
deletion_finish-Keeps keys c m n =
    search (keeping, load_domains-Keeps (Settled-Ignores keys), report_deletion-Keeps)

change_finish-Keeps :
    (keys : List Text) (c : DomainsTab) (m n : ℕ)
    → Keeps (Settled keys) (load_domains c >> report_group_change m n)
change_finish-Keeps keys c m n =
    search (keeping, load_domains-Keeps (Settled-Ignores keys), report_group_change-Keeps)

module _ {W : Type 0} (u : Surroundings W) where
  deleted-selected :
      (c s : DomainsTab) (oks : List Bool) (w : W)
      → Settled
          (select (map not oks) c.selected_domain_patterns)
          (run u (selected_domains_deleted c oks) s w).state
  unfolding selected_domains_deleted ◌>>=◌
  deleted-selected c s oks w =
      let failed = select (map not oks) c.selected_domain_patterns in
      run-Keeps u {I = Settled failed}
        (load_domains c >> report_deletion (count_true oks) (length oks)) _ _
        (deletion_finish-Keeps failed c (count_true oks) (length oks)) (refl, refl)

  -- A confirmed deletion of the selected domains, on a server that accepts the deletions of exactly
  -- the patterns with `ok pattern`: the patterns that stay selected are those that were refused,
  -- and the bulk action is over.
  pub delete_confirmed-selected :
      (c s : DomainsTab) (w : W) (ok : Text → Bool)
      → Accepts u delete_domain ok
      → let r = run u (delete_confirmed c) s w in
        (r.state.selected_domain_patterns ≡ filter (λ p. not (ok p)) c.selected_domain_patterns)
        × (r.state.bulk_domain_loading ≡ false)
  unfolding delete_confirmed
  delete_confirmed-selected c s w ok h =
      let d = deleted-selected c _ (map ok c.selected_domain_patterns) _ in
      simp (run-bind, statuses-serve_all u delete_domain ok c.selected_domain_patterns w h)
        (d.0 ∙ select-map-not ok c.selected_domain_patterns, d.1)

  changed-selected :
      (c s : DomainsTab) (oks : List Bool) (w : W)
      → Settled [] (run u (selected_domains_changed c oks) s w).state
  unfolding selected_domains_changed ◌>>=◌
  changed-selected c s oks w =
      run-Keeps u {I = Settled []}
        (load_domains c >> report_group_change (count_true oks) (length oks)) _ _
        (change_finish-Keeps [] c (count_true oks) (length oks)) (refl, refl)

  -- After a bulk change of group of a selection that was not empty, the selection is empty and
  -- the bulk action is over, whatever the server answers.
  pub change_domains_to-selected :
      (c s : DomainsTab) (w : W) (group : ℕ)
      → c.selected_domain_patterns ≢ []
      → Settled [] (run u (change_domains_to c (some group)) s w).state
  unfolding change_domains_to
  change_domains_to-selected c s w group ne =
      elim (Bool-cases (nat_beq (length c.selected_domain_patterns) 0)) [
        | inl empty ↦ absurd (ne (ground arith))
        | inr filled ↦ simp (filled, run-bind) (changed-selected c _ _ _)
      ]
