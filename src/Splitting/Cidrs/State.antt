-- ===== src/Splitting/Cidrs/State.antt =====
-- The `useState` values of `SplittingPage` that its cidr handlers read and set. The page number
-- is signed, since one handler lowers it.
use split_proxy.Base.{ℕ, ℤ, pos, Bool, true, false, Text, Option, none, List, []}
use split_proxy.Api.{CidrRule}
use split_proxy.Splitting.Settings.{default_route_page_size, GroupFilter, everything}

pub record CidrsTab : Type 0 where
  pub cidrs : List CidrRule
  pub cidr_page : ℤ
  pub cidr_page_size : ℕ
  pub cidr_total : ℕ
  pub cidr_group_filter : GroupFilter
  pub selected_cidrs : List Text
  pub bulk_cidr_group : Option ℕ
  pub bulk_cidr_loading : Bool
  pub cidr_search_input : Text
  pub cidr_search : Text
  pub loading_cidrs : Bool
  pub new_cidr : Text
  pub cidr_group : Option ℕ
  pub adding_cidr : Bool
  pub clearing_all_cidrs : Bool
  pub deleting_cidr : Option Text

abbrev pub initial : CidrsTab
initial = record {
  cidrs = [];
  cidr_page = pos 1;
  cidr_page_size = default_route_page_size;
  cidr_total = 0;
  cidr_group_filter = everything;
  selected_cidrs = [];
  bulk_cidr_group = none;
  bulk_cidr_loading = false;
  cidr_search_input = [];
  cidr_search = [];
  loading_cidrs = true;
  new_cidr = [];
  cidr_group = none;
  adding_cidr = false;
  clearing_all_cidrs = false;
  deleting_cidr = none;
}
