-- ===== src/Splitting/Cidrs/Paging.antt =====
-- The page number of the cidrs' table behind a deletion.
use split_proxy.Base.{
  ℤ, pos, negsuc, ◌-ℤ◌, ◌≤ℤ◌, ltb_ℤ, ◌≡◌, ◌≢◌, refl, true, ◌&&◌, Text, none, some, List, [], ◌∷◌,
  length, arith, nat_beq, if◌then◌else◌, Bool-cases, inl, inr, Member, at_head,
}
use split_proxy.Api.{CidrRule, delete_cidr, Outcome, fulfilled, rejected}
use split_proxy.Script.{◌>>=◌}
use split_proxy.Script.Run.{Surroundings, run}
use split_proxy.Script.Compose.{run-bind, run-Keeps}
use split_proxy.Script.Interleaving.{Reach, start, turn, later, first, settled}
use split_proxy.Splitting.Settings.{everything}
use split_proxy.Splitting.Cidrs.{
  CidrsTab, Handler, initial, load_cidrs, cidr_removed, remove_cidr, Starts, by, respond,
  filter_changed, click_delete, choose_filter,
}
use split_proxy.Splitting.Cidrs.Frame.{Ignores, load_cidrs-Keeps}

abbrev OnPage : ℤ → CidrsTab → Type 0
OnPage page s = s.cidr_page ≡ page

OnPage-Ignores : (page : ℤ) → Ignores (OnPage page)
OnPage-Ignores page = record {
  on_loading = λ b s i. i;
  on_cidrs = λ r s i. i;
  on_total = λ n s i. i;
}

-- The page after a deletion whose closure shows `rows` rows on `page`.
abbrev page_after : List CidrRule → ℤ → ℤ
page_after rows page = if nat_beq (length rows) 1 && ltb_ℤ (pos 1) page then page -ℤ pos 1 else page

page_after-ge_one :
    (rows : List CidrRule) (page : ℤ) → pos 1 ≤ℤ page → pos 1 ≤ℤ page_after rows page
page_after-ge_one rows (pos n) h = ground arith
page_after-ge_one rows (negsuc n) h = absurd (omega arith)

module _ {W : Type 0} (u : Surroundings W) where
  cidr_removed-page :
      (c s : CidrsTab) (w : W)
      → s.cidr_page ≡ c.cidr_page
      → (run u (cidr_removed c (fulfilled tt)) s w).state.cidr_page ≡ page_after c.cidrs c.cidr_page
  unfolding cidr_removed ◌>>=◌
  cidr_removed-page c s w same =
      elim (Bool-cases (nat_beq (length c.cidrs) 1 && ltb_ℤ (pos 1) c.cidr_page)) [
        | inl last ↦ rw (last, same) refl
        | inr more ↦ rw more (
            run-Keeps u {I = OnPage c.cidr_page} (load_cidrs c) s w
              (load_cidrs-Keeps (OnPage-Ignores c.cidr_page) c) same)
      ]

  cidr_removed-ge_one :
      (c s : CidrsTab) (o : Outcome (Unit {0})) (w : W)
      → s.cidr_page ≡ c.cidr_page
      → pos 1 ≤ℤ c.cidr_page
      → pos 1 ≤ℤ (run u (cidr_removed c o) s w).state.cidr_page
  cidr_removed-ge_one c s (fulfilled _) w same h =
      rw (cidr_removed-page c s w same) (page_after-ge_one c.cidrs c.cidr_page h)
  cidr_removed-ge_one c s (rejected e) w same h = unfold cidr_removed in rw same h

  -- A deletion that runs alone from a page that is at least 1, on any answer of the server, ends on
  -- a page that is at least 1, and no row is marked as being deleted.
  pub remove_cidr-page :
      (c : CidrsTab) (cidr : Text) (w : W)
      → pos 1 ≤ℤ c.cidr_page
      → let r = run u (remove_cidr c cidr) c w in
        (pos 1 ≤ℤ r.state.cidr_page) × (r.state.deleting_cidr ≡ none)
  unfolding remove_cidr
  remove_cidr-page c cidr w h = simp run-bind (cidr_removed-ge_one c _ _ _ refl h, refl)

-- In every run of the tab, where the table shows one row, which is not being deleted, and a page
-- after the first, the page number can become 0: the user deletes that row and changes the filter
-- before the answer, and the answer lowers the page that the filter has set to 1.
pub Reach-cidr_page_zero :
    {s : CidrsTab} {hs : List Handler} (item : CidrRule)
    → Reach Starts initial s hs
    → s.cidrs ≡ item ∷ []
    → ltb_ℤ (pos 1) s.cidr_page ≡ true
    → s.deleting_cidr ≢ some item.cidr
    → (s' : CidrsTab) × ((hs' : List Handler) × (Reach Starts initial s' hs'
          × (s'.cidr_page ≡ pos 0)))
unfolding respond remove_cidr filter_changed cidr_removed ◌>>=◌
Reach-cidr_page_zero {s} item r one later_page idle =
    let m : Member item s.cidrs = rw one (at_head refl) in
    let r1 = start r (by (click_delete item) (m, idle)) in
    let r2 = start r1 (by (choose_filter everything) tt) in
    let r3 = turn r2 (later (first (settled (delete_cidr item.cidr) _ (fulfilled tt)))) in
    (_, (_, (r3, simp (one, later_page) refl)))
