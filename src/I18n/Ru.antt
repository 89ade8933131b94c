-- ===== src/I18n/Ru.antt =====
-- The Russian texts (admin/front/src/shared/i18n/locales/ru.ts).
mod Accounts
mod Network
use split_proxy.Base.{[], ◌∷◌}
use split_proxy.I18n.Tables.{Table}
use Accounts.{
  ru_common, ru_admin_layout, ru_login_page, ru_home_page, ru_users_page, ru_user_form_page,
  ru_auth, ru_delete_user_modal, ru_proxies_page, ru_new_proxy_form_page, ru_delete_proxy_modal,
}
use Network.{
  ru_groups_page, ru_new_group_form_page, ru_delete_group_modal, ru_delete_worker_modal,
  ru_routing_page,
}

unfoldable pub ru : Table
unfolding ru_common ru_admin_layout ru_login_page ru_home_page ru_users_page ru_user_form_page
    ru_auth ru_delete_user_modal ru_proxies_page ru_new_proxy_form_page ru_delete_proxy_modal
    ru_groups_page ru_new_group_form_page ru_delete_group_modal ru_delete_worker_modal
    ru_routing_page
ru =
    ("common", ru_common)
    ∷ ("adminLayout", ru_admin_layout)
    ∷ ("loginPage", ru_login_page)
    ∷ ("homePage", ru_home_page)
    ∷ ("usersPage", ru_users_page)
    ∷ ("userFormPage", ru_user_form_page)
    ∷ ("auth", ru_auth)
    ∷ ("deleteUserModal", ru_delete_user_modal)
    ∷ ("proxiesPage", ru_proxies_page)
    ∷ ("newProxyFormPage", ru_new_proxy_form_page)
    ∷ ("deleteProxyModal", ru_delete_proxy_modal)
    ∷ ("groupsPage", ru_groups_page)
    ∷ ("newGroupFormPage", ru_new_group_form_page)
    ∷ ("deleteGroupModal", ru_delete_group_modal)
    ∷ ("deleteWorkerModal", ru_delete_worker_modal)
    ∷ ("routingPage", ru_routing_page)
    ∷ []
