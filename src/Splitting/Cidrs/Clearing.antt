-- ===== src/Splitting/Cidrs/Clearing.antt =====
-- The page behind the removal of all ranges.
use split_proxy.Base.{
  ℤ, pos, negsuc, beq_ℤ, ◌≡◌, refl, ap, true, false, none, [], arith, Bool-cases, inl, inr,
}
use split_proxy.Api.{clear_all_cidrs, Outcome, fulfilled, rejected}
use split_proxy.Script.{◌>>=◌}
use split_proxy.Script.Run.{Surroundings, run}
use split_proxy.Script.Compose.{run-bind, run-Keeps}
use split_proxy.Splitting.Cidrs.{
  CidrsTab, load_cidrs, to_first_page, all_cidrs_cleared, clear_confirmed,
}
use split_proxy.Splitting.Cidrs.Frame.{Ignores, load_cidrs-Keeps}

-- The first page, with nothing selected and no group chosen for a bulk change.
abbrev pub Cleared : CidrsTab → Type 0
Cleared s = (s.cidr_page ≡ pos 1) × ((s.selected_cidrs ≡ []) × (s.bulk_cidr_group ≡ none))

Cleared-Ignores : Ignores Cleared
Cleared-Ignores = record { on_loading = λ b s i. i; on_cidrs = λ r s i. i; on_total = λ n s i. i }

beq_ℤ-one : (a : ℤ) → beq_ℤ a (pos 1) ≡ true → a ≡ pos 1
beq_ℤ-one (pos n) h = ap pos (ground arith)
beq_ℤ-one (negsuc n) h = absurd (ground arith)

module _ {W : Type 0} (u : Surroundings W) where
  to_first_page-Cleared :
      (c s : CidrsTab) (w : W)
      → s.cidr_page ≡ c.cidr_page
      → s.selected_cidrs ≡ []
      → s.bulk_cidr_group ≡ none
      → Cleared (run u (to_first_page c) s w).state
  unfolding to_first_page
  to_first_page-Cleared c s w same sel bulk = elim (Bool-cases (beq_ℤ c.cidr_page (pos 1))) [
    | inl one ↦ rw one (
        run-Keeps u {I = Cleared} (load_cidrs c) s w (load_cidrs-Keeps Cleared-Ignores c)
          (cc (beq_ℤ-one c.cidr_page one), (sel, bulk)))
    | inr later ↦ rw later (refl, (sel, bulk))
  ]

  all_cidrs_cleared-Cleared :
      (c s : CidrsTab) (o : Outcome (Unit {0})) (w : W)
      → o ≡ fulfilled tt
      → s.cidr_page ≡ c.cidr_page
      → Cleared (run u (all_cidrs_cleared c o) s w).state
  unfolding all_cidrs_cleared ◌>>=◌
  all_cidrs_cleared-Cleared c s (fulfilled _) w e same = to_first_page-Cleared c _ w same refl refl
  all_cidrs_cleared-Cleared c s (rejected d) w e same = cc

  -- A confirmed removal of all ranges that runs alone and that the server accepts ends on the first
  -- page, with an empty selection and no group chosen, and the button is not loading.
  pub clear_confirmed-Cleared :
      (c : CidrsTab) (w : W)
      → (u.serve clear_all_cidrs w).0 ≡ fulfilled tt
      → let r = run u (clear_confirmed c) c w in
        Cleared r.state × (r.state.clearing_all_cidrs ≡ false)
  unfolding clear_confirmed
  clear_confirmed-Cleared c w accepted =
      simp run-bind (all_cidrs_cleared-Cleared c _ _ _ accepted refl, refl)
