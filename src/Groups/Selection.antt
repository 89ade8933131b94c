-- ===== src/Groups/Selection.antt =====
-- What the bulk actions of `GroupsPage` leave selected, and which rows a bulk change regroups.
use split_proxy.Base.{
  ℕ, ◌-◌, ◌≡◌, ◌≢◌, refl, sym, ◌∙◌, Bool, true, false, not, ◌&&◌, Text, text_beq, text_beq_iff,
  Option, some, List, [], ◌∷◌, map, length, filter, select, any, arith, nat_beq, if◌then◌else◌,
  Bool-cases, inl, inr, Member, at_head, in_tail,
}
use split_proxy.Api.{update_worker, WorkerItem}
use split_proxy.Script.Run.{Surroundings, run}
use split_proxy.Script.Compose.{run-bind, run-Keeps, Accepts, statuses-serve_all, select-map}
use split_proxy.Groups.{
  GroupsPage, BulkGroupValue, bulk_group_id, updated, regroup, without, bulk_group_updated,
  bulk_update_to, report_bulk_group, load_workers,
}
use split_proxy.Groups.Frame.{Ignores, load_workers-Keeps, report_bulk_group-Keeps}

-- `guids.includes(guid)`
abbrev pub includes_guid : List Text → Text → Bool
includes_guid guids guid = any (λ g. text_beq g guid) guids

module _ (ok : Text → Bool) where
  updated-map :
      (guids : List Text) (guid : Text)
      → updated guids (map ok guids) guid ≡ (includes_guid guids guid && ok guid)
  unfolding updated
  updated-map [] guid = refl
  updated-map (g ∷ guids) guid = ground (arith, text_beq_iff g guid, updated-map guids guid)

  includes-filter :
      (guids : List Text) (guid : Text)
      → includes_guid (filter ok guids) guid ≡ (includes_guid guids guid && ok guid)
  includes-filter [] guid = refl
  includes-filter (g ∷ guids) guid = ground (arith, text_beq_iff g guid, includes-filter guids guid)

  includes_of_Member :
      (guids : List Text) (guid : Text) → Member guid guids → includes_guid guids guid ≡ true
  includes_of_Member [] guid m = elim m [ ]
  includes_of_Member (g ∷ guids) guid (at_head e) = rw ((text_beq_iff g guid).1 (sym e))
  includes_of_Member (g ∷ guids) guid (in_tail m) = ground (arith, includes_of_Member guids guid m)

  without-filter_of :
      (guids chosen : List Text)
      → ((g : Text) → Member g chosen → Member g guids)
      → without (filter ok guids) chosen ≡ filter (λ g. not (ok g)) chosen
  unfolding without
  without-filter_of guids [] h = refl
  without-filter_of guids (g ∷ chosen) h = rw (
    includes-filter guids g,
    includes_of_Member guids g (h g (at_head refl)),
    without-filter_of guids chosen (λ x m. h x (in_tail m)),
  )

  pub without-filter :
      (guids : List Text) → without (filter ok guids) guids ≡ filter (λ g. not (ok g)) guids
  without-filter guids = without-filter_of guids guids (λ g m. m)

abbrev pub Selected : List Text → GroupsPage → Type 0
Selected guids s = s.selected_worker_guids ≡ guids

pub Selected-Ignores : (guids : List Text) → Ignores (Selected guids)
Selected-Ignores guids = record {
  on_loading = λ b s i. i;
  on_groups = λ r s i. i;
  on_workers = λ r s i. i;
  on_total = λ n s i. i;
}

module _ {W : Type 0} (u : Surroundings W) where
  updated-selected :
      (c s : GroupsPage) (group : Option ℕ) (oks : List Bool) (w : W)
      → (run u (bulk_group_updated c group oks) s w).state.selected_worker_guids
        ≡ without (select oks c.selected_worker_guids) s.selected_worker_guids
  unfolding bulk_group_updated
  updated-selected c s group oks w =
      let guids = c.selected_worker_guids in
      let left = without (select oks guids) s.selected_worker_guids in
      let n = length (select oks guids) in
      simp run-bind (
        run-Keeps u {I = λ t. t.selected_worker_guids ≡ left} (load_workers c) _ _
          (load_workers-Keeps (Selected-Ignores left) c)
          (run-Keeps u {I = λ t. t.selected_worker_guids ≡ left}
            (report_bulk_group n (length oks - n)) _ _ (report_bulk_group-Keeps n (length oks - n))
            refl))

  -- A bulk change of group that runs alone, with a selection that is not empty and no other
  -- bulk action, on a server that accepts the updates of exactly the workers with `ok guid`:
  -- the workers that stay selected are those whose update was refused, and the bulk action is
  -- over.
  pub bulk_update_to-selected :
      (c : GroupsPage) (w : W) (value : BulkGroupValue) (ok : Text → Bool)
      → Accepts u (λ guid. update_worker guid (bulk_group_id value)) ok
      → c.selected_worker_guids ≢ []
      → c.bulk_loading ≡ false
      → let r = run u (bulk_update_to c (some value)) c w in
        (r.state.selected_worker_guids ≡ filter (λ g. not (ok g)) c.selected_worker_guids)
        × (r.state.bulk_loading ≡ false)
  unfolding bulk_update_to
  bulk_update_to-selected c w value ok h ne idle =
      let guids = c.selected_worker_guids in
      let f = λ (guid : Text). update_worker guid (bulk_group_id value) in
      elim (Bool-cases (nat_beq (length c.selected_worker_guids) 0)) [
        | inl empty ↦ absurd (ne (ground arith))
        | inr some_guids ↦
            simp (some_guids, idle, run-bind, statuses-serve_all u f ok guids w h)
              (
                updated-selected c _ (bulk_group_id value) (map ok guids) _
                    ∙ rw (select-map ok guids) (without-filter ok guids),
                refl,
              )
      ]

-- A bulk change regroups a row exactly when its worker was selected and its own update was
-- accepted, and changes nothing else of the row.
pub regroup-map :
    (ok : Text → Bool) (guids : List Text) (group : Option ℕ) (worker : WorkerItem)
    → regroup guids (map ok guids) group worker ≡ (
        if includes_guid guids worker.guid && ok worker.guid
        then record worker { group = group }
        else worker)
unfolding regroup
regroup-map ok guids group worker = rw (updated-map ok guids worker.guid) refl
