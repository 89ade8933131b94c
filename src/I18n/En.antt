-- ===== src/I18n/En.antt =====
-- The English texts (admin/front/src/shared/i18n/locales/en.ts).
mod Accounts
mod Network
use split_proxy.Base.{[], ◌∷◌}
use split_proxy.I18n.Tables.{Table}
use Accounts.{
  en_common, en_admin_layout, en_login_page, en_home_page, en_users_page, en_user_form_page,
  en_auth, en_delete_user_modal, en_proxies_page, en_new_proxy_form_page, en_delete_proxy_modal,
}
use Network.{
  en_groups_page, en_new_group_form_page, en_delete_group_modal, en_delete_worker_modal,
  en_routing_page,
}

unfoldable pub en : Table
unfolding en_common en_admin_layout en_login_page en_home_page en_users_page en_user_form_page
    en_auth en_delete_user_modal en_proxies_page en_new_proxy_form_page en_delete_proxy_modal
    en_groups_page en_new_group_form_page en_delete_group_modal en_delete_worker_modal
    en_routing_page
en =
    ("common", en_common)
    ∷ ("adminLayout", en_admin_layout)
    ∷ ("loginPage", en_login_page)
    ∷ ("homePage", en_home_page)
    ∷ ("usersPage", en_users_page)
    ∷ ("userFormPage", en_user_form_page)
    ∷ ("auth", en_auth)
    ∷ ("deleteUserModal", en_delete_user_modal)
    ∷ ("proxiesPage", en_proxies_page)
    ∷ ("newProxyFormPage", en_new_proxy_form_page)
    ∷ ("deleteProxyModal", en_delete_proxy_modal)
    ∷ ("groupsPage", en_groups_page)
    ∷ ("newGroupFormPage", en_new_group_form_page)
    ∷ ("deleteGroupModal", en_delete_group_modal)
    ∷ ("deleteWorkerModal", en_delete_worker_modal)
    ∷ ("routingPage", en_routing_page)
    ∷ []
