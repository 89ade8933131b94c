-- ===== src/Splitting/Cidrs/Frame.antt =====
-- What a reload leaves alone: every predicate on the state that does not read the table's rows,
-- its total and the loading flag.
use split_proxy.Base.{ℕ, Bool, List}
use split_proxy.Api.{CidrRule, Paginated, Outcome, fulfilled, rejected}
use split_proxy.Script.Keeps.{Keeps, Keeps-modify, keeping}
use split_proxy.Splitting.Settings.{report_group_change, report_deletion}
use split_proxy.Splitting.Cidrs.{CidrsTab, cidrs_loaded, load_cidrs}

pub record Ignores (I : CidrsTab → Type 0) : Type 0 where
  pub on_loading : (b : Bool) (s : CidrsTab) → I s → I (record s { loading_cidrs = b })
  pub on_cidrs : (r : List CidrRule) (s : CidrsTab) → I s → I (record s { cidrs = r })
  pub on_total : (n : ℕ) (s : CidrsTab) → I s → I (record s { cidr_total = n })

module _ {I : CidrsTab → Type 0} (ignores : Ignores I) where
  cidrs_loaded-Keeps : (o : Outcome (Paginated CidrRule)) → Keeps I (cidrs_loaded o)
  unfolding cidrs_loaded
  cidrs_loaded-Keeps (fulfilled r) =
      search (keeping, Keeps-modify, ignores.on_cidrs r.results, ignores.on_total r.count)
  cidrs_loaded-Keeps (rejected e) = search keeping

  pub load_cidrs-Keeps : (c : CidrsTab) → Keeps I (load_cidrs c)
  unfolding load_cidrs
  load_cidrs-Keeps c = search (keeping, ignores.on_loading, cidrs_loaded-Keeps) depth 8

pub report_group_change-Keeps :
    {I : CidrsTab → Type 0} (m n : ℕ) → Keeps I (report_group_change m n)
unfolding report_group_change
report_group_change-Keeps m n = search keeping

pub report_deletion-Keeps : {I : CidrsTab → Type 0} (m n : ℕ) → Keeps I (report_deletion m n)
unfolding report_deletion
report_deletion-Keeps m n = search keeping
