-- ===== src/Splitting/Domains/Paging.antt =====
-- The page number of the domains' table behind a deletion.
use split_proxy.Base.{
  ℤ, pos, negsuc, ◌-ℤ◌, ◌≤ℤ◌, ltb_ℤ, ◌≡◌, ◌≢◌, refl, true, ◌&&◌, Text, none, some, List, [], ◌∷◌,
  length, arith, nat_beq, if◌then◌else◌, Bool-cases, inl, inr, Member, at_head,
}
use split_proxy.Api.{DomainRule, delete_domain, Outcome, fulfilled, rejected}
use split_proxy.Script.{◌>>=◌}
use split_proxy.Script.Run.{Surroundings, run}
use split_proxy.Script.Compose.{run-bind, run-Keeps}
use split_proxy.Script.Interleaving.{Reach, start, turn, later, first, settled}
use split_proxy.Splitting.Settings.{everything}
use split_proxy.Splitting.Validation.{Unicode}
use split_proxy.Splitting.Domains.{
  DomainsTab, Handler, initial, load_domains, domain_removed, remove_domain, Starts, by, respond,
  filter_changed, click_delete, choose_filter,
}
use split_proxy.Splitting.Domains.Frame.{Ignores, load_domains-Keeps}

abbrev OnPage : ℤ → DomainsTab → Type 0
OnPage page s = s.domain_page ≡ page

OnPage-Ignores : (page : ℤ) → Ignores (OnPage page)
OnPage-Ignores page = record {
  on_loading = λ b s i. i;
  on_domains = λ r s i. i;
  on_total = λ n s i. i;
}

-- The page after a deletion whose closure shows `rows` rows on `page`.
abbrev page_after : List DomainRule → ℤ → ℤ
page_after rows page = if nat_beq (length rows) 1 && ltb_ℤ (pos 1) page then page -ℤ pos 1 else page

page_after-ge_one :
    (rows : List DomainRule) (page : ℤ) → pos 1 ≤ℤ page → pos 1 ≤ℤ page_after rows page
page_after-ge_one rows (pos n) h = ground arith
page_after-ge_one rows (negsuc n) h = absurd (omega arith)

module _ {W : Type 0} (u : Surroundings W) where
  domain_removed-page :
      (c s : DomainsTab) (w : W)
      → s.domain_page ≡ c.domain_page
      → (run u (domain_removed c (fulfilled tt)) s w).state.domain_page
        ≡ page_after c.domains c.domain_page
  unfolding domain_removed ◌>>=◌
  domain_removed-page c s w same =
      elim (Bool-cases (nat_beq (length c.domains) 1 && ltb_ℤ (pos 1) c.domain_page)) [
        | inl last ↦ rw (last, same) refl
        | inr more ↦ rw more (
            run-Keeps u {I = OnPage c.domain_page} (load_domains c) s w
              (load_domains-Keeps (OnPage-Ignores c.domain_page) c) same)
      ]

  domain_removed-ge_one :
      (c s : DomainsTab) (o : Outcome (Unit {0})) (w : W)
      → s.domain_page ≡ c.domain_page
      → pos 1 ≤ℤ c.domain_page
      → pos 1 ≤ℤ (run u (domain_removed c o) s w).state.domain_page
  domain_removed-ge_one c s (fulfilled _) w same h =
      rw (domain_removed-page c s w same) (page_after-ge_one c.domains c.domain_page h)
  domain_removed-ge_one c s (rejected e) w same h = unfold domain_removed in rw same h

  -- A deletion that runs alone from a page that is at least 1, on any answer of the server, ends on
  -- a page that is at least 1, and no row is marked as being deleted.
  pub remove_domain-page :
      (c : DomainsTab) (pattern : Text) (w : W)
      → pos 1 ≤ℤ c.domain_page
      → let r = run u (remove_domain c pattern) c w in
        (pos 1 ≤ℤ r.state.domain_page) × (r.state.deleting_domain ≡ none)
  unfolding remove_domain
  remove_domain-page c pattern w h = simp run-bind (domain_removed-ge_one c _ _ _ refl h, refl)

module _ (u : Unicode) where
  -- In every run of the tab, where the table shows one row, which is not being deleted, and a
  -- page after the first, the page number can become 0: the user deletes that row and changes
  -- the filter before the answer, and the answer lowers the page that the filter has set to 1.
  pub Reach-page_zero :
      {s : DomainsTab} {hs : List Handler} (item : DomainRule)
      → Reach (Starts u) initial s hs
      → s.domains ≡ item ∷ []
      → ltb_ℤ (pos 1) s.domain_page ≡ true
      → s.deleting_domain ≢ some item.pattern
      → (s' : DomainsTab) × ((hs' : List Handler) × (Reach (Starts u) initial s' hs'
            × (s'.domain_page ≡ pos 0)))
  unfolding respond remove_domain filter_changed domain_removed ◌>>=◌
  Reach-page_zero {s} item r one later_page idle =
      let m : Member item s.domains = rw one (at_head refl) in
      let r1 = start r (by (click_delete item) (m, idle)) in
      let r2 = start r1 (by (choose_filter everything) tt) in
      let r3 = turn r2 (later (first (settled (delete_domain item.pattern) _ (fulfilled tt)))) in
      (_, (_, (r3, simp (one, later_page) refl)))
