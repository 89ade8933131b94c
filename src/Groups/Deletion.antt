-- ===== src/Groups/Deletion.antt =====
-- What the bulk deletion of `GroupsPage` leaves selected.
use split_proxy.Base.{
  ℕ, ◌-◌, ◌≡◌, refl, ◌∙◌, Bool, false, not, Text, List, [], ◌∷◌, map, length, filter, select, arith,
}
use split_proxy.Api.{remove_worker}
use split_proxy.Script.{◌>>◌}
use split_proxy.Script.Run.{Surroundings, run}
use split_proxy.Script.Keeps.{Keeps, keeping}
use split_proxy.Script.Compose.{run-bind, run-Keeps, Accepts, statuses-serve_all, select-map}
use split_proxy.Groups.{
  GroupsPage, without, report_bulk_deletion, drop_from_selection, step_back, workers_deleted,
  delete_confirmed,
}
use split_proxy.Groups.Frame.{load_workers-Keeps, report_bulk_deletion-Keeps}
use split_proxy.Groups.Selection.{Selected, Selected-Ignores, without-filter}

step_back-Keeps-Selected :
    (guids : List Text) (c : GroupsPage) (n : ℕ) → Keeps (Selected guids) (step_back c n)
unfolding step_back
step_back-Keeps-Selected guids c n = search (keeping, load_workers-Keeps (Selected-Ignores guids))

finish-Keeps-Selected :
    (guids : List Text) (c : GroupsPage) (m n : ℕ)
    → Keeps (Selected guids) (report_bulk_deletion m n >> step_back c m)
finish-Keeps-Selected guids c m n =
    search (keeping, report_bulk_deletion-Keeps, step_back-Keeps-Selected)

without-nil : (guids : List Text) → without [] guids ≡ guids
unfolding without
without-nil [] = refl
without-nil (g ∷ guids) = rw (without-nil guids) refl

module _ {W : Type 0} (u : Surroundings W) where
  drop_from_selection-selected :
      (deleted : List Text) (s : GroupsPage) (w : W)
      → (run u (drop_from_selection deleted) s w).state.selected_worker_guids
        ≡ without deleted s.selected_worker_guids
  unfolding drop_from_selection
  drop_from_selection-selected [] s w = rw (without-nil s.selected_worker_guids) refl
  drop_from_selection-selected (g ∷ guids) s w = ground arith

  workers_deleted-selected :
      (c s : GroupsPage) (oks : List Bool) (w : W)
      → (run u (workers_deleted c oks) s w).state.selected_worker_guids
        ≡ without (select oks c.selected_worker_guids) s.selected_worker_guids
  unfolding workers_deleted
  workers_deleted-selected c s oks w =
      let deleted = select oks c.selected_worker_guids in
      let n = length deleted in
      let left = without deleted s.selected_worker_guids in
      rw run-bind (
        run-Keeps u {I = Selected left} (report_bulk_deletion n (length oks - n) >> step_back c n) _
          _ (finish-Keeps-Selected left c n (length oks - n))
          (drop_from_selection-selected deleted s w))

  -- A confirmed bulk deletion that runs alone, on a server that accepts the deletions of exactly
  -- the workers with `ok guid`: the workers that stay selected are those whose deletion was
  -- refused, and the bulk action is over.
  pub delete_confirmed-selected_workers :
      (c : GroupsPage) (w : W) (ok : Text → Bool)
      → Accepts u remove_worker ok
      → let r = run u (delete_confirmed c) c w in
        (r.state.selected_worker_guids ≡ filter (λ g. not (ok g)) c.selected_worker_guids)
        × (r.state.bulk_loading ≡ false)
  unfolding delete_confirmed
  delete_confirmed-selected_workers c w ok h =
      let guids = c.selected_worker_guids in
      simp (run-bind, statuses-serve_all u remove_worker ok guids w h)
        (
          workers_deleted-selected c _ (map ok guids) _
              ∙ rw (select-map ok guids) (without-filter ok guids),
          refl,
        )
