-- ===== src/Groups/State.antt =====
-- The `useState` values of `GroupsPage`.
use split_proxy.Base.{ℕ, Bool, true, false, Text, Option, none, List, []}
use split_proxy.Api.{GroupItem, WorkerItem}

-- `number | "none" | "all"`
pub data WorkerGroupFilter : Type 0 where
  all_workers ungrouped : WorkerGroupFilter
  of_group : ℕ → WorkerGroupFilter

-- `number | "__none__"`
pub data BulkGroupValue : Type 0 where
  to_group : ℕ → BulkGroupValue
  to_none : BulkGroupValue

abbrev pub default_page_size : ℕ
default_page_size = 100

pub record GroupsPage : Type 0 where
  pub groups : List GroupItem
  pub workers : List WorkerItem
  pub loading : Bool
  pub total_workers : ℕ
  pub current_page : ℕ
  pub page_size : ℕ
  pub deleting_group : Option GroupItem
  pub deleting_worker : Option WorkerItem
  pub delete_loading : Bool
  pub selected_worker_guids : List Text
  pub worker_search : Text
  pub worker_group_filter : WorkerGroupFilter
  pub bulk_group : Option BulkGroupValue
  pub bulk_loading : Bool

abbrev pub initial : GroupsPage
initial = record {
  groups = [];
  workers = [];
  loading = true;
  total_workers = 0;
  current_page = 1;
  page_size = default_page_size;
  deleting_group = none;
  deleting_worker = none;
  delete_loading = false;
  selected_worker_guids = [];
  worker_search = [];
  worker_group_filter = all_workers;
  bulk_group = none;
  bulk_loading = false;
}
