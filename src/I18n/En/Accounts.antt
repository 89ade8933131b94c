-- ===== src/I18n/En/Accounts.antt =====
-- The English texts of the layout, the home page, the accounts and the administrators
-- (admin/front/src/shared/i18n/locales/en.ts).
use split_proxy.Base.{[], ◌∷◌}
use split_proxy.I18n.Tables.{Section}

unfoldable pub en_common : Section
en_common =
    ("add", "Add")
    ∷ ("save", "Save")
    ∷ ("cancel", "Cancel")
    ∷ ("delete", "Delete")
    ∷ ("edit", "Edit")
    ∷ ("create", "Create")
    ∷ ("back", "Back")
    ∷ ("login", "Login")
    ∷ ("password", "Password")
    ∷ ("enterLogin", "Enter login")
    ∷ ("enterPassword", "Enter password")
    ∷ ("actions", "Actions")
    ∷ ("enter", "Sign in")
    ∷ ("createdAt", "Created at")
    ∷ ("updatedAt", "Updated at")
    ∷ ("minPasswordSize", "Minimum 8 characters")
    ∷ ("paginationTotal", "Total {{total}}")
    ∷ []

unfoldable pub en_admin_layout : Section
en_admin_layout =
    ("main", "Home")
    ∷ ("navigate", "Routing")
    ∷ ("admins", "Administrators")
    ∷ ("openMenu", "Open menu")
    ∷ ("controlPanel", "Control panel")
    ∷ ("exit", "Sign out")
    ∷ ("proxyAccounts", "Proxy accounts")
    ∷ ("groups", "Groups and workers")
    ∷ []

unfoldable pub en_login_page : Section
en_login_page = ("loginError", "Login error") ∷ ("submit", "Sign in") ∷ []

unfoldable pub en_home_page : Section
en_home_page =
    ("title", "Home")
    ∷ ("subtitle", "Overview of the proxy infrastructure")
    ∷ ("refresh", "Refresh")
    ∷ ("workers", "Workers")
    ∷ ("groups", "Groups")
    ∷ ("proxies", "Proxy accounts")
    ∷ ("admins", "Administrators")
    ∷ ("domains", "Domains")
    ∷ ("cidrs", "CIDR")
    ∷ ("online", "online")
    ∷ ("offline", "offline")
    ∷ ("healthy", "Healthy")
    ∷ ("degraded", "Needs attention")
    ∷ ("workerGroups", "Worker groups")
    ∷ ("attention", "Requires attention")
    ∷ ("routing", "Routing")
    ∷ ("defaultRoute", "Default route")
    ∷ ("domainRules", "Domain rules")
    ∷ ("cidrRules", "CIDR rules")
    ∷ ("noProblems", "No critical problems detected")
    ∷ ("noGroups", "No groups yet")
    ∷ ("noWorkers", "No workers yet")
    ∷ ("viewAll", "View all")
    ∷ ("quickActions", "Quick actions")
    ∷ ("addGroup", "Add worker group")
    ∷ ("addProxy", "Add proxy account")
    ∷ ("addDomain", "Add domain")
    ∷ ("addCidr", "Add CIDR")
    ∷ ("defaultRouteUnavailable", "Could not determine the default route")
    ∷ ("loadError", "Could not load home page data")
    ∷ (
      "workersOffline", "{{count}} {{count, plural, one {worker offline} other {workers offline}}}",
    )
    ∷ ("emptyGroup", "No online workers in group “{{name}}”")
    ∷ []

unfoldable pub en_users_page : Section
en_users_page =
    ("admins", "Administrators")
    ∷ ("addUser", "Add user")
    ∷ ("usersNotLoaded", "Could not load users")
    ∷ ("deletionError", "Deletion error")
    ∷ ("userDeleted", "User deleted")
    ∷ ("isSuperuser", "Superuser?")
    ∷ ("cantDeleteSuperUser", "You cannot delete superusers")
    ∷ []

unfoldable pub en_user_form_page : Section
en_user_form_page =
    ("userNotLoaded", "Could not load user")
    ∷ ("userUpdated", "User updated")
    ∷ ("userCreated", "User created")
    ∷ ("userEditing", "Edit user")
    ∷ ("newUser", "New user")
    ∷ ("backToUsers", "Back to users")
    ∷ ("loginPlaceholder", "Enter a unique login")
    ∷ []

unfoldable pub en_auth : Section
en_auth =
    ("h1", "Sign in")
    ∷ ("login", "Login")
    ∷ ("password", "Password")
    ∷ ("invalidCredentials", "Invalid email or password")
    ∷ []

unfoldable pub en_delete_user_modal : Section
en_delete_user_modal =
    ("deleteUserQ", "Delete user?")
    ∷ ("deleteDescription", "User {{name}} will be permanently deleted and cannot be restored.")
    ∷ []

unfoldable pub en_proxies_page : Section
en_proxies_page =
    ("h1", "Proxy accounts")
    ∷ ("addProxy", "Add account")
    ∷ ("proxiesNotLoaded", "Could not load proxy accounts")
    ∷ ("login", "Account login")
    ∷ ("deletionError", "Proxy deletion error")
    ∷ ("proxyDeleted", "Proxy account deleted")
    ∷ ("selectedProxies", "Selected proxies: {{count}}")
    ∷ ("clearSelection", "Clear selection")
    ∷ ("bulkDelete", "Delete selected")
    ∷ ("bulkDeleteTitle", "Delete selected proxies?")
    ∷ ("bulkDeleteConfirm", "Are you sure you want to delete {{count}} proxies?")
    ∷ ("bulkDeleted", "Deleted proxies: {{count}}")
    ∷ ("bulkDeletePartial", "Deleted: {{success}}, failed: {{failed}}")
    ∷ ("bulkDeleteFailed", "Failed to delete selected proxies")
    ∷ ("searchPlaceholder", "Search proxies")
    ∷ []

unfoldable pub en_new_proxy_form_page : Section
en_new_proxy_form_page =
    ("proxyNotLoaded", "Could not load proxy")
    ∷ ("backToProxies", "Back to proxy accounts")
    ∷ ("newProxy", "Add new account")
    ∷ ("usernamePlaceholder", "Enter proxy username")
    ∷ ("proxyEditing", "Edit proxy account")
    ∷ ("proxyUpdated", "Proxy account updated")
    ∷ ("proxyCreated", "Proxy account added")
    ∷ []

unfoldable pub en_delete_proxy_modal : Section
en_delete_proxy_modal =
    ("deleteProxy", "Delete proxy login/password?")
    ∷ (
      "deleteDescription",
      "Access for {{name}} to the proxy will be permanently deleted and cannot be restored.",
    )
    ∷ []
