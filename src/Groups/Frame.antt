-- ===== src/Groups/Frame.antt =====
-- What the reloads of `GroupsPage` leave alone: every predicate on the state that does not read the
-- rows of the two tables, the total and the loading flag.
use split_proxy.Base.{ℕ, Bool, List}
use split_proxy.Api.{GroupItem, WorkerItem, Paginated, Outcome, fulfilled, rejected}
use split_proxy.Script.Keeps.{Keeps, keeping}
use split_proxy.Groups.{
  GroupsPage, groups_loaded, load_groups, workers_loaded, load_workers, report_bulk_group,
  report_bulk_deletion,
}

pub record Ignores (I : GroupsPage → Type 0) : Type 0 where
  pub on_loading : (b : Bool) (s : GroupsPage) → I s → I (record s { loading = b })
  pub on_groups : (r : List GroupItem) (s : GroupsPage) → I s → I (record s { groups = r })
  pub on_workers : (r : List WorkerItem) (s : GroupsPage) → I s → I (record s { workers = r })
  pub on_total : (n : ℕ) (s : GroupsPage) → I s → I (record s { total_workers = n })

module _ {I : GroupsPage → Type 0} (ignores : Ignores I) where
  groups_loaded-Keeps : (o : Outcome (Paginated GroupItem)) → Keeps I (groups_loaded o)
  unfolding groups_loaded
  groups_loaded-Keeps (fulfilled r) = search (keeping, ignores.on_groups r.results)
  groups_loaded-Keeps (rejected e) = search keeping

  pub load_groups-Keeps : Keeps I load_groups
  unfolding load_groups
  load_groups-Keeps = search (keeping, groups_loaded-Keeps)

  workers_loaded-Keeps : (o : Outcome (Paginated WorkerItem)) → Keeps I (workers_loaded o)
  unfolding workers_loaded
  workers_loaded-Keeps (fulfilled r) =
      search (keeping, ignores.on_workers r.results, ignores.on_total r.count)
  workers_loaded-Keeps (rejected e) = search keeping

  pub load_workers-Keeps : (c : GroupsPage) → Keeps I (load_workers c)
  unfolding load_workers
  load_workers-Keeps c = search (keeping, ignores.on_loading, workers_loaded-Keeps) depth 8

module _ {I : GroupsPage → Type 0} (m n : ℕ) where
  pub report_bulk_group-Keeps : Keeps I (report_bulk_group m n)
  unfolding report_bulk_group
  report_bulk_group-Keeps = search keeping

  pub report_bulk_deletion-Keeps : Keeps I (report_bulk_deletion m n)
  unfolding report_bulk_deletion
  report_bulk_deletion-Keeps = search keeping
