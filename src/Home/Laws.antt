-- ===== src/Home/Laws.antt =====
-- The worker list and the figures of the dashboard.
use split_proxy.Base.{
  ◌≡◌, refl, ap, ◌∙◌, Bool, true, false, not, some, List, [], ◌∷◌, ◌++◌, filter, arith,
  if◌then◌else◌, Bool-cases, inl, inr,
}
use split_proxy.Api.{
  WorkerItem, GroupItem, ProxyItem, User, DomainRule, CidrRule, DefaultRoute, Answers, Paginated,
  Outcome, fulfilled, rejected,
}
use split_proxy.Script.Run.{Surroundings, run, serve_all}
use split_proxy.Script.{◌>>◌, ◌>>=◌, skip, show_message, warning, translated}
use split_proxy.Script.Compose.{run-bind}
use split_proxy.Home.{
  insert_worker, sort_workers, HomePage, on_fulfilled, dashboard_calls, dashboard_settled,
  load_dashboard, Handler,
}

abbrev online : WorkerItem → Bool
online w = w.online

abbrev offline : WorkerItem → Bool
offline w = not w.online

insert_worker-online :
    (w : WorkerItem) (vs : List WorkerItem) → w.online ≡ true → insert_worker w vs ≡ w ∷ vs
unfolding insert_worker
insert_worker-online w [] h = refl
insert_worker-online w (v ∷ vs) h = ground arith

insert_worker-offline_head :
    (w : WorkerItem) (vs : List WorkerItem)
    → w.online ≡ false
    → insert_worker w (filter offline vs) ≡ w ∷ filter offline vs
unfolding insert_worker
insert_worker-offline_head w [] h = refl
insert_worker-offline_head w (v ∷ vs) h = elim (Bool-cases v.online) [
  | inl on ↦ simp on (insert_worker-offline_head w vs h)
  | inr off ↦ simp off refl
]

insert_worker-offline :
    (w : WorkerItem) (us vs : List WorkerItem)
    → w.online ≡ false
    → insert_worker w (filter online us ++ filter offline vs)
      ≡ filter online us ++ w ∷ filter offline vs
unfolding insert_worker
insert_worker-offline w [] vs h = insert_worker-offline_head w vs h
insert_worker-offline w (u ∷ us) vs h = elim (Bool-cases u.online) [
  | inl on ↦ simp (on, h) (ap (λ t. u ∷ t) (insert_worker-offline w us vs h))
  | inr off ↦ simp off (insert_worker-offline w us vs h)
]

-- The sorted workers are those that are online, then the others, each part in the order that the
-- server gave.
pub sort_workers_lem :
    (ws : List WorkerItem)
    → sort_workers ws ≡ filter (λ w. w.online) ws ++ filter (λ w. not w.online) ws
unfolding sort_workers
sort_workers_lem [] = refl
sort_workers_lem (w ∷ ws) = elim (Bool-cases w.online) [
  | inl on ↦ simp (sort_workers_lem ws, on) (insert_worker-online w _ on)
  | inr off ↦ simp (sort_workers_lem ws, off) (insert_worker-offline w ws ws off)
]

-- What a settled request leaves in a field: the new value, or the old one where it was rejected.
abbrev pub or_old : {A B : Type 0} → (A → B) → B → Outcome A → B
or_old f old (fulfilled a) = f a
or_old f old (rejected e) = old

or_old-groups :
    (o : Outcome (Paginated GroupItem)) (s : HomePage)
    → or_old (λ r. record s { groups = r.results }) s o
      ≡ record s { groups = or_old (λ r. r.results) s.groups o }
or_old-groups (fulfilled r) s = refl
or_old-groups (rejected e) s = refl

or_old-workers :
    (o : Outcome (Paginated WorkerItem)) (s : HomePage)
    → or_old (λ r. record s { workers = r.results; worker_count = r.count }) s o ≡ record s {
      workers = or_old (λ r. r.results) s.workers o;
      worker_count = or_old (λ r. r.count) s.worker_count o;
    }
or_old-workers (fulfilled r) s = refl
or_old-workers (rejected e) s = refl

or_old-proxies :
    (o : Outcome (Paginated ProxyItem)) (s : HomePage)
    → or_old (λ r. record s { proxy_count = r.count }) s o
      ≡ record s { proxy_count = or_old (λ r. r.count) s.proxy_count o }
or_old-proxies (fulfilled r) s = refl
or_old-proxies (rejected e) s = refl

or_old-users :
    (o : Outcome (Paginated User)) (s : HomePage)
    → or_old (λ r. record s { admin_count = r.count }) s o
      ≡ record s { admin_count = or_old (λ r. r.count) s.admin_count o }
or_old-users (fulfilled r) s = refl
or_old-users (rejected e) s = refl

or_old-domains :
    (o : Outcome (Paginated DomainRule)) (s : HomePage)
    → or_old (λ r. record s { domain_count = r.count }) s o
      ≡ record s { domain_count = or_old (λ r. r.count) s.domain_count o }
or_old-domains (fulfilled r) s = refl
or_old-domains (rejected e) s = refl

or_old-cidrs :
    (o : Outcome (Paginated CidrRule)) (s : HomePage)
    → or_old (λ r. record s { cidr_count = r.count }) s o
      ≡ record s { cidr_count = or_old (λ r. r.count) s.cidr_count o }
or_old-cidrs (fulfilled r) s = refl
or_old-cidrs (rejected e) s = refl

or_old-route :
    (o : Outcome (DefaultRoute)) (s : HomePage)
    → or_old (λ r. record s { default_route = some r.worker_group }) s o
      ≡ record s { default_route = or_old (λ r. some r.worker_group) s.default_route o }
or_old-route (fulfilled r) s = refl
or_old-route (rejected e) s = refl

-- The page with the figures of the requests that were fulfilled.
abbrev pub figures : Answers dashboard_calls → HomePage → HomePage
figures os s = record {
  groups = or_old (λ r. r.results) s.groups os.0;
  workers = or_old (λ r. r.results) s.workers os.1.0;
  worker_count = or_old (λ r. r.count) s.worker_count os.1.0;
  proxy_count = or_old (λ r. r.count) s.proxy_count os.1.1.0;
  admin_count = or_old (λ r. r.count) s.admin_count os.1.1.1.0;
  domain_count = or_old (λ r. r.count) s.domain_count os.1.1.1.1.0;
  cidr_count = or_old (λ r. r.count) s.cidr_count os.1.1.1.1.1.0;
  default_route = or_old (λ r. some r.worker_group) s.default_route os.1.1.1.1.1.1.0;
  loading = s.loading;
}

module _ {W : Type 0} (u : Surroundings W) where
  -- One settled request, then the rest from the state `t` that it leaves.
  on_fulfilled-then :
      {A : Type 0} (set : A → HomePage → HomePage) (o : Outcome A) (k : Handler) (s t : HomePage)
      (w : W)
      → or_old (λ a. set a s) s o ≡ t
      → (run u (on_fulfilled set o >> k) s w).state ≡ (run u k t w).state
  unfolding ◌>>=◌
  on_fulfilled-then set (fulfilled a) k s t w e = ap (λ x. (run u k x w).state) e
  on_fulfilled-then set (rejected d) k s t w e = ap (λ x. (run u k x w).state) e

  warning-state :
      (b : Bool) (s : HomePage) (w : W)
      → (run u
          (if b then show_message warning (translated "homePage.loadError" []) else skip)
          s
          w).state
        ≡ s
  warning-state true s w = refl
  warning-state false s w = refl

  dashboard_settled-state :
      (os : Answers dashboard_calls) (s : HomePage) (w : W)
      → (run u (dashboard_settled os) s w).state ≡ figures os s
  unfolding dashboard_settled
  dashboard_settled-state os s w =
      on_fulfilled-then _ os.0 _ s _ w (or_old-groups os.0 s)
      ∙ (on_fulfilled-then _ os.1.0 _ _ _ w (or_old-workers os.1.0 _)
          ∙ (on_fulfilled-then _ os.1.1.0 _ _ _ w (or_old-proxies os.1.1.0 _)
              ∙ (on_fulfilled-then _ os.1.1.1.0 _ _ _ w (or_old-users os.1.1.1.0 _)
                  ∙ (on_fulfilled-then _ os.1.1.1.1.0 _ _ _ w (or_old-domains os.1.1.1.1.0 _)
                      ∙ (on_fulfilled-then _ os.1.1.1.1.1.0 _ _ _ w (or_old-cidrs os.1.1.1.1.1.0 _)
                          ∙ (on_fulfilled-then _ os.1.1.1.1.1.1.0 _ _ _ w
                                (or_old-route os.1.1.1.1.1.1.0 _)
                              ∙ warning-state _ _ w))))))

  -- The load of the dashboard sets each figure whose own request was fulfilled, keeps the old one
  -- where that request was rejected, and ends with a page that is not loading.
  pub load_dashboard-state :
      (s : HomePage) (w : W)
      → (run u load_dashboard s w).state
        ≡ record (figures (serve_all u dashboard_calls w).0 s) { loading = false }
  unfolding load_dashboard
  load_dashboard-state s w =
      let os = (serve_all u dashboard_calls w).0 in
      let t = (serve_all u dashboard_calls w).1 in
      simp run-bind (
        ap (λ (x : HomePage). record x { loading = false })
          (dashboard_settled-state os (record s { loading = true }) t))
