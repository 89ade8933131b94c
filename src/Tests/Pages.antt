-- ===== src/Tests/Pages.antt =====
-- The other pages at concrete inputs.
use split_proxy.Base.{◌≡◌, refl, false, text_beq, [], ◌∷◌, some, arith}
use split_proxy.Text.{codes}
use split_proxy.Script.{pure, ◌>>=◌}
use split_proxy.Script.Run.{run, serve_all}
use split_proxy.Script.Sends.{Sends}
use split_proxy.Script.Interleaving.{Reach, here, start}
use split_proxy.Proxies
use split_proxy.Proxies.Paging as ProxiesPaging
use split_proxy.Proxies.Bulk.{bulk_remove-selected}
use split_proxy.Groups
use split_proxy.Groups.Paging as GroupsPaging
use split_proxy.Groups.Selection.{bulk_update_to-selected}
use split_proxy.Groups.Deletion.{delete_confirmed-selected_workers}
use split_proxy.Users
use split_proxy.Users.Laws.{Permitted, Starts-Permitted}
use split_proxy.Home
use split_proxy.Home.Laws.{figures, sort_workers_lem, load_dashboard-state}
use split_proxy.Tests.Data.{
  surroundings, is_not_two, is_not_x, proxies-Accepts, updates-Accepts, workers-Accepts, a_worker,
  b_worker, a_user,
}

abbrev proxies_page : Proxies.ProxiesPage
proxies_page = record Proxies.initial {
  total = 101;
  current_page = 2;
  selected_row_keys = 1 ∷ 2 ∷ [];
}

abbrev second_proxies_page : Proxies.ProxiesPage
second_proxies_page = record Proxies.initial { current_page = 2 }

second_proxies_page-Reach : Reach Proxies.Starts Proxies.initial second_proxies_page (pure tt ∷ [])
unfolding Proxies.respond Proxies.handle_page_change Proxies.clear_selection ◌>>=◌
second_proxies_page-Reach =
    start here (Proxies.by (Proxies.change_page 2 100) (omega arith, omega arith))

Reach-InRange_example : ProxiesPaging.InRange second_proxies_page
Reach-InRange_example = ProxiesPaging.Reach-InRange second_proxies_page-Reach

step_back-HasRows_example :
    ProxiesPaging.HasRows 100 100
      (run surroundings (Proxies.step_back proxies_page 1) proxies_page 0).state.current_page
step_back-HasRows_example =
    ProxiesPaging.step_back-HasRows surroundings proxies_page proxies_page 1 0
      (omega arith, omega arith) refl

bulk_remove-selected_example :
    let r = run surroundings (Proxies.bulk_remove proxies_page) proxies_page 0 in
    (r.state.selected_row_keys ≡ 2 ∷ []) × (r.state.bulk_delete_loading ≡ false)
bulk_remove-selected_example =
    bulk_remove-selected surroundings proxies_page proxies_page 0 is_not_two proxies-Accepts
      (λ e. cc)

abbrev groups_page : Groups.GroupsPage
groups_page = record Groups.initial {
  workers = a_worker ∷ b_worker ∷ [];
  selected_worker_guids = codes "a" ∷ codes "x" ∷ [];
}

abbrev second_groups_page : Groups.GroupsPage
second_groups_page = record Groups.initial { current_page = 2 }

second_groups_page-Reach : Reach Groups.Starts Groups.initial second_groups_page (pure tt ∷ [])
unfolding Groups.respond Groups.page_changed ◌>>=◌
second_groups_page-Reach =
    start here (Groups.by (Groups.change_page 2 100) (omega arith, omega arith))

Reach-Paged_example : GroupsPaging.Paged second_groups_page
Reach-Paged_example = GroupsPaging.Reach-Paged second_groups_page-Reach

bulk_update_to-selected_example :
    let r =
      run surroundings
        (Groups.bulk_update_to groups_page (some (Groups.to_group 4)))
        groups_page
        0 in
    (r.state.selected_worker_guids ≡ codes "x" ∷ []) × (r.state.bulk_loading ≡ false)
unfolding text_beq
bulk_update_to-selected_example =
    bulk_update_to-selected surroundings groups_page 0 (Groups.to_group 4) is_not_x
      (updates-Accepts (Groups.bulk_group_id (Groups.to_group 4))) (λ e. cc) refl

delete_confirmed-selected_workers_example :
    let r = run surroundings (Groups.delete_confirmed groups_page) groups_page 0 in
    (r.state.selected_worker_guids ≡ codes "x" ∷ []) × (r.state.bulk_loading ≡ false)
unfolding text_beq
delete_confirmed-selected_workers_example =
    delete_confirmed-selected_workers surroundings groups_page 0 is_not_x workers-Accepts

abbrev users_page : Users.UsersPage
users_page = record Users.initial { users = a_user ∷ []; deleting_user = some a_user }

Starts-Permitted_example :
    Sends (Permitted (some a_user)) (Users.respond users_page Users.confirm_delete)
Starts-Permitted_example =
    Starts-Permitted users_page (Users.respond users_page Users.confirm_delete)
      (Users.by Users.confirm_delete (λ e. cc, refl))

sort_workers_lem_example : Home.sort_workers (a_worker ∷ b_worker ∷ []) ≡ b_worker ∷ a_worker ∷ []
sort_workers_lem_example = sort_workers_lem (a_worker ∷ b_worker ∷ [])

load_dashboard-state_example :
    (run surroundings Home.load_dashboard Home.initial 0).state
    ≡ record (figures (serve_all surroundings Home.dashboard_calls 0).0 Home.initial) {
      loading = false;
    }
load_dashboard-state_example = load_dashboard-state surroundings Home.initial 0
