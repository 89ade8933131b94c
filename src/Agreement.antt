-- ===== src/Agreement.antt =====
-- What the tables of the pages show against what the server has: the selects in the rows of the
-- routing page and of the workers (admin/front/src/pages).
pub mod Rows
pub mod Bulk
use split_proxy.Base.{
  ◌≡◌, ◌≢◌, refl, sym, ◌∙◌, subst, true, Member, inl, inr, Bool-cases, text_beq, ℕ, Text, Option,
  none, some,
}
use split_proxy.Api.{
  DomainRule, CidrRule, WorkerItem, update_domain, update_cidr, update_worker, Outcome, fulfilled,
  rejected,
}
use split_proxy.Script.{◌>>=◌, is_fulfilled}
use split_proxy.Script.Run.{Surroundings, run}
use split_proxy.Splitting.Domains
use split_proxy.Splitting.Cidrs
use split_proxy.Groups
use Rows.{
  domain_rows, cidr_rows, worker_rows, Table, Updates, Agrees, Stores, StoresUnder, Regroups,
  Regroups-stale, accepted-Agrees, rejected-Agrees,
}

domain-Regroups :
    (key : Text) (group : ℕ) → Regroups domain_rows key (some group) (Domains.with_group key group)
unfolding Domains.with_group
domain-Regroups key group = record {
  key_kept = λ r. elim (Bool-cases (text_beq (domain_rows.key r) key)) [
    | inl same ↦ rw same refl
    | inr differs ↦ rw differs refl
  ];
  hit = λ r same. rw same refl;
  miss = λ r differs. rw differs refl;
}

cidr-Regroups :
    (key : Text) (group : ℕ) → Regroups cidr_rows key (some group) (Cidrs.with_group key group)
unfolding Cidrs.with_group
cidr-Regroups key group = record {
  key_kept = λ r. elim (Bool-cases (text_beq (cidr_rows.key r) key)) [
    | inl same ↦ rw same refl
    | inr differs ↦ rw differs refl
  ];
  hit = λ r same. rw same refl;
  miss = λ r differs. rw differs refl;
}

worker-Regroups :
    (key : Text) (group : Option ℕ) → Regroups worker_rows key group (Groups.with_group key group)
unfolding Groups.with_group
worker-Regroups key group = record {
  key_kept = λ r. elim (Bool-cases (text_beq (worker_rows.key r) key)) [
    | inl same ↦ rw same refl
    | inr differs ↦ rw differs refl
  ];
  hit = λ r same. rw same refl;
  miss = λ r differs. rw differs refl;
}

module _ {W : Type 0} (u : Surroundings W) (groups : W → Text → Option ℕ) where
  domain_group_changed-Agrees :
      (key : Text) (group : ℕ) (o : Outcome (Unit {0})) (s : Domains.DomainsTab)
      (before : Text → Option ℕ) (w : W)
      → Updates key (some group) (is_fulfilled o) before (groups w)
      → Agrees domain_rows before s.domains
      → let r = run u (Domains.domain_group_changed key group o) s w in
        Agrees domain_rows (groups r.world) r.state.domains
  unfolding Domains.domain_group_changed ◌>>=◌
  domain_group_changed-Agrees key group (fulfilled _) s before w h k =
      accepted-Agrees domain_rows key (some group) (Domains.with_group key group)
        (domain-Regroups key group) h s.domains k
  domain_group_changed-Agrees key group (rejected e) s before w h k =
      rejected-Agrees domain_rows key (some group) h s.domains k

  cidr_group_changed-Agrees :
      (key : Text) (group : ℕ) (o : Outcome (Unit {0})) (s : Cidrs.CidrsTab)
      (before : Text → Option ℕ) (w : W)
      → Updates key (some group) (is_fulfilled o) before (groups w)
      → Agrees cidr_rows before s.cidrs
      → let r = run u (Cidrs.cidr_group_changed key group o) s w in
        Agrees cidr_rows (groups r.world) r.state.cidrs
  unfolding Cidrs.cidr_group_changed ◌>>=◌
  cidr_group_changed-Agrees key group (fulfilled _) s before w h k =
      accepted-Agrees cidr_rows key (some group) (Cidrs.with_group key group)
        (cidr-Regroups key group) h s.cidrs k
  cidr_group_changed-Agrees key group (rejected e) s before w h k =
      rejected-Agrees cidr_rows key (some group) h s.cidrs k

  worker_group_changed-Agrees :
      (key : Text) (group : Option ℕ) (o : Outcome (Unit {0})) (s : Groups.GroupsPage)
      (before : Text → Option ℕ) (w : W)
      → Updates key group (is_fulfilled o) before (groups w)
      → Agrees worker_rows before s.workers
      → let r = run u (Groups.worker_group_changed key group o) s w in
        Agrees worker_rows (groups r.world) r.state.workers
  unfolding Groups.worker_group_changed ◌>>=◌
  worker_group_changed-Agrees key group (fulfilled _) s before w h k =
      accepted-Agrees worker_rows key group (Groups.with_group key group)
        (worker-Regroups key group) h s.workers k
  worker_group_changed-Agrees key group (rejected e) s before w h k =
      rejected-Agrees worker_rows key group h s.workers k

  change_domain_group-Agrees :
      (key : Text) (group : Option ℕ) (s : Domains.DomainsTab) (w : W)
      → Stores u update_domain some groups
      → Agrees domain_rows (groups w) s.domains
      → let r = run u (Domains.change_domain_group key group) s w in
        Agrees domain_rows (groups r.world) r.state.domains
  unfolding Domains.change_domain_group ◌>>=◌
  change_domain_group-Agrees key none s w h k = k
  change_domain_group-Agrees key (some group) s w h k =
      let (o, after) = u.serve (update_domain key group) w in
      domain_group_changed-Agrees key group o s (groups w) after (h key group w) k

  change_cidr_group-Agrees :
      (normal : Text → Text) (key : Text) (group : Option ℕ) (s : Cidrs.CidrsTab) (w : W)
      → StoresUnder normal u update_cidr some groups
      → normal key ≡ key
      → Agrees cidr_rows (groups w) s.cidrs
      → let r = run u (Cidrs.change_cidr_group key group) s w in
        Agrees cidr_rows (groups r.world) r.state.cidrs
  unfolding Cidrs.change_cidr_group ◌>>=◌
  change_cidr_group-Agrees normal key none s w h n k = k
  change_cidr_group-Agrees normal key (some group) s w h n k =
      let (o, after) = u.serve (update_cidr key group) w in
      let updated =
        subst (λ x. Updates x (some group) (is_fulfilled o) (groups w) (groups after)) n
          (h key group w) in
      cidr_group_changed-Agrees key group o s (groups w) after updated k

  cidr_group_changed-stale :
      (key : Text) (group : ℕ) (o : Outcome (Unit {0})) (s : Cidrs.CidrsTab) (w : W) (r : CidrRule)
      → is_fulfilled o ≡ true
      → groups w key ≢ some group
      → Member r s.cidrs
      → r.cidr ≡ key
      → let f = run u (Cidrs.cidr_group_changed key group o) s w in
        ¬ Agrees cidr_rows (groups f.world) f.state.cidrs
  unfolding Cidrs.cidr_group_changed ◌>>=◌
  cidr_group_changed-stale key group (fulfilled _) s w r accepted stale m same =
      Regroups-stale cidr_rows key (some group) (groups w) (Cidrs.with_group key group)
        (cidr-Regroups key group) stale r s.cidrs m same
  cidr_group_changed-stale key group (rejected e) s w r accepted stale m same = cc accepted

  -- On a server that keeps an accepted update of a range under the normal form of the range: where
  -- the range of a row is not in that form, the server has another group for it, and it accepts the
  -- change of the row's group, the table does not show the groups that the server has.
  pub change_cidr_group-stale :
      (normal : Text → Text) (group : ℕ) (s : Cidrs.CidrsTab) (w : W) (r : CidrRule)
      → StoresUnder normal u update_cidr some groups
      → Member r s.cidrs
      → normal r.cidr ≢ r.cidr
      → groups w r.cidr ≢ some group
      → is_fulfilled (u.serve (update_cidr r.cidr group) w).0 ≡ true
      → let f = run u (Cidrs.change_cidr_group r.cidr (some group)) s w in
        ¬ Agrees cidr_rows (groups f.world) f.state.cidrs
  unfolding Cidrs.change_cidr_group ◌>>=◌
  change_cidr_group-stale normal group s w r h m n stale accepted =
      let (o, after) = u.serve (update_cidr r.cidr group) w in
      let kept = (h r.cidr group w).1 r.cidr (λ e. n (sym e)) in
      cidr_group_changed-stale r.cidr group o s after r accepted (λ e. stale (sym kept ∙ e)) m refl

  change_worker_group-Agrees :
      (worker : WorkerItem) (group : Option ℕ) (s : Groups.GroupsPage) (w : W)
      → Stores u update_worker (λ g. g) groups
      → Agrees worker_rows (groups w) s.workers
      → let r = run u (Groups.change_worker_group worker group) s w in
        Agrees worker_rows (groups r.world) r.state.workers
  unfolding Groups.change_worker_group ◌>>=◌
  change_worker_group-Agrees worker group s w h k =
      let (o, after) = u.serve (update_worker worker.guid group) w in
      worker_group_changed-Agrees worker.guid group o s (groups w) after (h worker.guid group w) k

module _ {W : Type 0} (u : Surroundings W) (domain_groups : W → Text → Option ℕ)
    (cidr_groups : W → Text → Option ℕ) (worker_groups : W → Text → Option ℕ) where
  -- On a server that keeps one group for each pattern, each range and each worker, where an
  -- accepted update of a pattern or a worker changes its own group only, one of a range changes the
  -- group of the range's normal form only, and a rejected one changes nothing: where the rows of a
  -- table show the groups that the server has, they still do so after the group of a row was
  -- changed, whether the server accepts or rejects it, and for a range if it is in normal form. This
  -- holds of the domains, of the ranges and of the workers, each handler running alone.
  pub change_group-Agrees :
      (normal : Text → Text) (pattern cidr : Text) (worker : WorkerItem) (group : Option ℕ)
      (d : Domains.DomainsTab) (c : Cidrs.CidrsTab) (g : Groups.GroupsPage) (w : W)
      → Stores u update_domain some domain_groups
      → StoresUnder normal u update_cidr some cidr_groups
      → Stores u update_worker (λ g. g) worker_groups
      → normal cidr ≡ cidr
      → Agrees domain_rows (domain_groups w) d.domains
      → Agrees cidr_rows (cidr_groups w) c.cidrs
      → Agrees worker_rows (worker_groups w) g.workers
      → let r = run u (Domains.change_domain_group pattern group) d w in
        let s = run u (Cidrs.change_cidr_group cidr group) c w in
        let t = run u (Groups.change_worker_group worker group) g w in
        Agrees domain_rows (domain_groups r.world) r.state.domains
        × (Agrees cidr_rows (cidr_groups s.world) s.state.cidrs
            × Agrees worker_rows (worker_groups t.world) t.state.workers)
  change_group-Agrees normal pattern cidr worker group d c g w hd hc hw n kd kc kw = (
    change_domain_group-Agrees u domain_groups pattern group d w hd kd,
    (
      change_cidr_group-Agrees u cidr_groups normal cidr group c w hc n kc,
      change_worker_group-Agrees u worker_groups worker group g w hw kw,
    ),
  )
