-- ===== src/Proxies/State.antt =====
-- The `useState` values of `ProxiesPage`, and the page arithmetic of its two deletions.
use split_proxy.Base.{ℕ, ◌+◌, ◌-◌, ◌/◌, Bool, true, false, Text, Option, none, List, [], ◌∷◌}
use split_proxy.Api.{ProxyItem}
use Prim.Native.Nat.{max}

abbrev pub default_page_size : ℕ
default_page_size = 100

abbrev pub page_size_options : List ℕ
page_size_options = 10 ∷ 20 ∷ 50 ∷ 100 ∷ []

pub record ProxiesPage : Type 0 where
  pub proxies : List ProxyItem
  pub total : ℕ
  pub loading : Bool
  pub deleting_proxy : Option ProxyItem
  pub delete_loading : Bool
  pub selected_row_keys : List ℕ
  pub bulk_delete_loading : Bool
  pub current_page : ℕ
  pub page_size : ℕ
  pub search_input : Text
  pub search : Text

abbrev pub initial : ProxiesPage
initial = record {
  proxies = [];
  total = 0;
  loading = true;
  deleting_proxy = none;
  delete_loading = false;
  selected_row_keys = [];
  bulk_delete_loading = false;
  current_page = 1;
  page_size = default_page_size;
  search_input = [];
  search = [];
}

-- `Math.ceil(a / b)` for a positive b.
unfoldable pub ceil_div : ℕ → ℕ → ℕ
ceil_div a b = (a + b - 1) / b

-- `Math.max(1, Math.ceil(Math.max(0, total - removed) / pageSize))`; subtraction stops at 0.
unfoldable pub max_page : ℕ → ℕ → ℕ → ℕ
unfolding ceil_div
max_page total removed page_size = max 1 (ceil_div (total - removed) page_size)
