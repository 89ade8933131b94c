-- ===== src/Agreement/Bulk.antt =====
-- The groups of the workers after a bulk change, against those that the server has.
use split_proxy.Base.{
  ◌≡◌, ◌≢◌, refl, sym, ◌∙◌, ap, subst, ℕ, Text, Bool, false, ◌||◌, Option, some, List, [], ◌∷◌, map,
  All, text_beq, text_beq_iff, Bool-cases, inl, inr, if◌then◌else◌, nat_beq, length, select, none,
  ◌-◌,
}
use split_proxy.Api.{
  Outcome, fulfilled, rejected, Paginated, WorkerItem, WorkerFilters, get_workers, update_worker,
}
use split_proxy.Script.{statuses, is_fulfilled, ◌>>=◌, ◌>>◌, modify}
use split_proxy.Script.Run.{Surroundings, serve_all, run}
use split_proxy.Script.Compose.{run-bind}
use split_proxy.Groups
use split_proxy.Agreement.Rows.{Agrees, Updates, Stores, worker_rows}

abbrev pub AreDistinct : List Text → Type 0
AreDistinct [] = Unit
AreDistinct (x ∷ xs) = All (λ y. y ≢ x) xs × AreDistinct xs

-- What a list of workers from the server is.
abbrev pub IsCurrent : (Text → Option ℕ) → Outcome (Paginated WorkerItem) → Type 0
IsCurrent groups (fulfilled r) = Agrees worker_rows groups r.results
IsCurrent groups (rejected e) = Unit

-- A server whose lists show its groups, and that a list leaves as it is.
abbrev pub Lists : {W : Type 0} → Surroundings W → (W → Text → Option ℕ) → Type 0
Lists {W} u groups =
    (filters : WorkerFilters) (w : W)
    → (groups (u.serve (get_workers filters) w).1 ≡ groups w)
      × IsCurrent (groups w) (u.serve (get_workers filters) w).0

updated-absent :
    (keys : List Text) (oks : List Bool) (k : Text)
    → All (λ y. y ≢ k) keys
    → Groups.updated keys oks k ≡ false
unfolding Groups.updated
updated-absent [] oks k h = refl
updated-absent (x ∷ keys) [] k h = refl
updated-absent (x ∷ keys) (ok ∷ oks) k (differs, h) = elim (Bool-cases (text_beq x k)) [
  | inl same ↦ absurd (differs ((text_beq_iff x k).0 same))
  | inr other_key ↦ rw other_key (updated-absent keys oks k h)
]

-- One update before those of other keys.
first-updated :
    (x : Text) (keys : List Text) (ok : Bool) (oks : List Bool) (k : Text) (group : Option ℕ)
    (before next : Text → Option ℕ) (after : Option ℕ)
    → All (λ y. y ≢ x) keys
    → Updates x group ok before next
    → after ≡ (if Groups.updated keys oks k then group else next k)
    → after ≡ (if Groups.updated (x ∷ keys) (ok ∷ oks) k then group else before k)
unfolding Groups.updated
first-updated x keys ok oks k group before next after absent h rest =
    elim (Bool-cases (text_beq x k)) [
      | inl same ↦
          let e = (text_beq_iff x k).0 same in
          let not_again = updated-absent keys oks k (subst (λ z. All (λ y. y ≢ z) keys) e absent) in
          rw same (
            rest
            ∙ (ap (λ b. if b then group else next k) not_again
                ∙ subst (λ z. next z ≡ (if ok then group else before z)) e h.0))
      | inr differs ↦ rw differs (
          rest
          ∙ ap (λ v. if Groups.updated keys oks k then group else v)
              (h.1 k (λ e. cc ((text_beq_iff x k).1 (sym e), differs))))
    ]

module _ {W : Type 0} (u : Surroundings W) (groups : W → Text → Option ℕ) (group : Option ℕ)
    (stores : Stores u update_worker (λ g. g) groups) where
  -- The updates of distinct workers: each has the new group where its own update was accepted.
  serve_all-updated :
      (keys : List Text) (w : W)
      → AreDistinct keys
      → let calls = map (λ guid. update_worker guid group) keys in
        let (os, after) = serve_all u calls w in
        (k : Text)
        → groups after k ≡ (if Groups.updated keys (statuses calls os) k then group else groups w k)
  unfolding Groups.updated
  serve_all-updated [] w h k = refl
  serve_all-updated (x ∷ keys) w (absent, h) k =
      let (o, next) = u.serve (update_worker x group) w in
      let calls = map (λ guid. update_worker guid group) keys in
      let (os, after) = serve_all u calls next in
      first-updated x keys (is_fulfilled o) (statuses calls os) k group (groups w) (groups next)
        (groups after k) absent (stores x group w) (serve_all-updated keys next h k)

regroup-Agrees :
    (keys : List Text) (oks : List Bool) (group : Option ℕ) (before after : Text → Option ℕ)
    → ((k : Text) → after k ≡ (if Groups.updated keys oks k then group else before k))
    → (rows : List WorkerItem) → Agrees worker_rows before rows
    → Agrees worker_rows after (map (Groups.regroup keys oks group) rows)
unfolding Groups.regroup
regroup-Agrees keys oks group before after h [] k = tt
regroup-Agrees keys oks group before after h (r ∷ rows) (here, k) = (
  elim (Bool-cases (Groups.updated keys oks r.guid)) [
    | inl accepted ↦ rw accepted (sym (h r.guid ∙ rw accepted refl))
    | inr refused ↦ rw refused (here ∙ sym (h r.guid ∙ rw refused refl))
  ],
  regroup-Agrees keys oks group before after h rows k,
)

module _ {W : Type 0} (u : Surroundings W) (groups : W → Text → Option ℕ)
    (lists : Lists u groups) where
  workers_loaded-Agrees :
      (o : Outcome (Paginated WorkerItem)) (s : Groups.GroupsPage) (w : W)
      → IsCurrent (groups w) o
      → Agrees worker_rows (groups w) s.workers
      → let r = run u (Groups.workers_loaded o >> modify (λ t. record t { loading = false })) s w in
        Agrees worker_rows (groups r.world) r.state.workers
  unfolding Groups.workers_loaded ◌>>=◌
  workers_loaded-Agrees (fulfilled r) s w h k = h
  workers_loaded-Agrees (rejected e) s w h k = k

  load_workers-Agrees :
      (c s : Groups.GroupsPage) (w : W)
      → Agrees worker_rows (groups w) s.workers
      → let r = run u (Groups.load_workers c) s w in
        Agrees worker_rows (groups r.world) r.state.workers
  unfolding Groups.load_workers ◌>>=◌
  load_workers-Agrees c s w k =
      let filters : WorkerFilters = record {
        guid = Groups.guid_param c.worker_search;
        group = Groups.group_param c.worker_group_filter;
        page = some c.current_page;
        page_size = some c.page_size;
      } in
      let (kept, current) = lists filters w in
      let (o, after) = u.serve (get_workers filters) w in
      workers_loaded-Agrees o _ after (subst (λ g. IsCurrent g o) (sym kept) current)
        (subst (λ g. Agrees worker_rows g s.workers) (sym kept) k)

  report-Agrees :
      (succeeded failed : ℕ) (c s : Groups.GroupsPage) (w : W)
      → Agrees worker_rows (groups w) s.workers
      → let r = run u (Groups.report_bulk_group succeeded failed >> Groups.load_workers c) s w in
        Agrees worker_rows (groups r.world) r.state.workers
  unfolding Groups.report_bulk_group
  report-Agrees succeeded failed c s w k = elim (Bool-cases (nat_beq failed 0)) [
    | inl all_accepted ↦ rw all_accepted (unfold ◌>>=◌ in load_workers-Agrees c s w k)
    | inr some_refused ↦ rw some_refused (unfold ◌>>=◌ in load_workers-Agrees c s w k)
  ]

  bulk_group_updated-Agrees :
      (c s : Groups.GroupsPage) (group : Option ℕ) (oks : List Bool) (w : W)
      → Agrees worker_rows
          (groups w)
          (map (Groups.regroup c.selected_worker_guids oks group) s.workers)
      → let r = run u (Groups.bulk_group_updated c group oks) s w in
        Agrees worker_rows (groups r.world) r.state.workers
  unfolding Groups.bulk_group_updated ◌>>=◌
  bulk_group_updated-Agrees c s group oks w k =
      let n = length (select oks c.selected_worker_guids) in
      report-Agrees n (length oks - n) c _ w k

  -- On a server that keeps one group for each worker, that an accepted update changes for its own
  -- worker only, and whose lists show these groups: where the rows of the table show the groups
  -- that the server has, they still do so after a bulk change of the group of distinct workers,
  -- whichever updates the server accepts and whether it answers the reload or not. The handler runs
  -- alone.
  pub bulk_update_to-Agrees :
      (c : Groups.GroupsPage) (w : W) (value : Option Groups.BulkGroupValue)
      → Stores u update_worker (λ g. g) groups
      → AreDistinct c.selected_worker_guids
      → Agrees worker_rows (groups w) c.workers
      → let r = run u (Groups.bulk_update_to c value) c w in
        Agrees worker_rows (groups r.world) r.state.workers
  unfolding Groups.bulk_update_to
  bulk_update_to-Agrees c w none stores distinct k = k
  bulk_update_to-Agrees c w (some value) stores distinct k =
      let group = Groups.bulk_group_id value in
      let guids = c.selected_worker_guids in
      let calls = map (λ guid. update_worker guid group) guids in
      let (os, after) = serve_all u calls w in
      elim (Bool-cases (nat_beq (length guids) 0 || c.bulk_loading)) [
        | inl idle ↦ rw idle k
        | inr busy ↦
            simp (busy, run-bind)
              (bulk_group_updated-Agrees c _ group (statuses calls os) after (
                regroup-Agrees guids (statuses calls os) group (groups w) (groups after)
                  (serve_all-updated u groups group stores guids w distinct) c.workers k))
      ]
