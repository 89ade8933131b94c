-- ===== src/Tests/Ranges.antt =====
-- The CIDR tab of the routing page at concrete inputs.
use split_proxy.Base.{pos, ◌≡◌, ◌↔◌, refl, true, false, [], ◌∷◌, some}
use split_proxy.Text.{codes, trim}
use split_proxy.Splitting.Validation.{is_valid_cidr}
use split_proxy.Script.Run.{run}
use split_proxy.Script.Sends.{Sends}
use split_proxy.Splitting.Validation.CidrLaws.{is_valid_cidr_iff}
use split_proxy.Splitting.Validation.Octets.{IsCidr}
use split_proxy.Splitting.Cidrs
use split_proxy.Splitting.Cidrs.Adding as CidrsAdding
use split_proxy.Splitting.Cidrs.Clearing.{Cleared, clear_confirmed-Cleared}
use split_proxy.Tests.Data.{surroundings, a_cidr}

is_valid_cidr_iff_example :
    (is_valid_cidr (codes "10.0.0.0/8") ≡ true) ↔ IsCidr (trim (codes "10.0.0.0/8"))
is_valid_cidr_iff_example = is_valid_cidr_iff (codes "10.0.0.0/8")

abbrev cidrs_page : Cidrs.CidrsTab
cidrs_page = record Cidrs.initial {
  cidrs = a_cidr ∷ [];
  cidr_page = pos 2;
  selected_cidrs = codes "x" ∷ codes "y" ∷ [];
  new_cidr = codes "10.0.0.0/8";
  cidr_group = some 1;
}

handle_add_cidrs-Requested_example :
    Sends (CidrsAdding.Requested cidrs_page) (Cidrs.handle_add_cidrs cidrs_page)
handle_add_cidrs-Requested_example = CidrsAdding.handle_add_cidrs-Requested cidrs_page

abbrev last_cidr : Cidrs.CidrsTab
last_cidr = record Cidrs.initial {
  cidrs = a_cidr ∷ [];
  cidr_page = pos 2;
  cidr_total = 101;
  loading_cidrs = false;
}

clear_confirmed-Cleared_example :
    let r = run surroundings (Cidrs.clear_confirmed cidrs_page) cidrs_page 0 in
    Cleared r.state × (r.state.clearing_all_cidrs ≡ false)
clear_confirmed-Cleared_example = clear_confirmed-Cleared surroundings cidrs_page 0 refl
