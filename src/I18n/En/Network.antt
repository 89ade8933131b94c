-- ===== src/I18n/En/Network.antt =====
-- The English texts of the groups, the workers and the routing
-- (admin/front/src/shared/i18n/locales/en.ts).
use split_proxy.Base.{[], ◌∷◌}
use split_proxy.I18n.Tables.{Section}

unfoldable pub en_groups_page : Section
en_groups_page =
    ("h1", "Groups")
    ∷ ("addGroup", "Add group")
    ∷ ("groupsNotLoaded", "Could not load groups")
    ∷ ("groupName", "Group name")
    ∷ ("ip", "IP address")
    ∷ ("workers", "Workers")
    ∷ ("online", "Online")
    ∷ ("offline", "Offline")
    ∷ ("worgerGuid", "Worker GUID")
    ∷ ("selectGroup", "Select a group")
    ∷ ("workersNotLoaded", "Could not load workers")
    ∷ ("workerDeleted", "Worker deleted")
    ∷ ("workerGroupUpdated", "Worker group updated")
    ∷ ("workerGroupUpdateError", "Could not change worker group")
    ∷ ("deletionGroupError", "Group deletion error")
    ∷ ("deletionWorkerError", "Worker deletion error")
    ∷ ("groupDeleted", "Group deleted")
    ∷ ("searchGuid", "Search by GUID")
    ∷ ("allGroups", "All")
    ∷ ("noGroup", "No group")
    ∷ ("bulkSelectGroup", "Assign group")
    ∷ ("bulkUpdateGroup", "Change group for selected")
    ∷ ("bulkDelete", "Delete selected")
    ∷ ("bulkDeleteTitle", "Bulk deletion")
    ∷ ("bulkDeleteConfirm", "Delete selected workers: {{count}}?")
    ∷ ("bulkWorkersDeleted", "Workers deleted: {{count}}")
    ∷ ("bulkGroupUpdated", "Group updated for {{count}} workers")
    ∷ ("bulkGroupPartial", "Group updated: {{succeeded}}, errors: {{failed}}")
    ∷ ("bulkDeletePartial", "Deleted: {{succeeded}}, errors: {{failed}}")
    ∷ ("workersTotal", "Total workers: {{count}}")
    ∷ ("selectedWorkers", "Workers selected: {{count}}")
    ∷ ("clearSelection", "Clear selection")
    ∷ []

unfoldable pub en_new_group_form_page : Section
en_new_group_form_page =
    ("groupNotLoaded", "Could not load group")
    ∷ ("backToGroups", "Back to groups")
    ∷ ("newGroup", "Add new group")
    ∷ ("group_name", "Group name")
    ∷ ("groupNamePlaceholder", "Enter group name")
    ∷ ("groupEditing", "Edit group")
    ∷ ("groupUpdated", "Group updated")
    ∷ ("groupCreated", "Group added")
    ∷ []

unfoldable pub en_delete_group_modal : Section
en_delete_group_modal =
    ("deleteGroup", "Delete group?")
    ∷ ("deleteDescription", "Group “{{name}}” will be permanently deleted and cannot be restored.")
    ∷ []

unfoldable pub en_delete_worker_modal : Section
en_delete_worker_modal =
    ("deleteWorker", "Delete worker?")
    ∷ ("deleteDescription", "Worker “{{name}}” will be permanently deleted and cannot be restored.")
    ∷ []

unfoldable pub en_routing_page : Section
en_routing_page =
    ("h1", "Routing")
    ∷ ("domains", "Domains")
    ∷ ("cidrs", "CIDR")
    ∷ ("pattern", "Domain")
    ∷ ("subdomains", "All subdomains")
    ∷ ("domainPlaceholder", "Enter domains")
    ∷ ("searchDomain", "Search domains")
    ∷ ("searchCidr", "Search CIDR")
    ∷ ("includeSubdomains", "Include subdomains")
    ∷ ("selectGroup", "Select a group")
    ∷ ("invalidDomain", "Enter a valid domain")
    ∷ ("invalidCidr", "Enter a valid CIDR network")
    ∷ ("domainAlreadyExists", "Domain already exists: {{pattern}}")
    ∷ ("cidrAlreadyExists", "CIDR already exists: {{cidr}}")
    ∷ ("domainAdded", "Domain added successfully")
    ∷ ("domainAddError", "Could not add domain")
    ∷ ("cidrAdded", "CIDR added successfully")
    ∷ ("cidrAddError", "Could not add CIDR")
    ∷ ("domainDeleted", "Domain deleted successfully")
    ∷ ("domainDeleteError", "Could not delete domain")
    ∷ ("cidrDeleted", "CIDR deleted successfully")
    ∷ ("cidrDeleteError", "Could not delete CIDR")
    ∷ ("domainGroupUpdated", "Domain group updated successfully")
    ∷ ("domainGroupUpdateError", "Could not change domain group")
    ∷ ("cidrGroupUpdated", "CIDR group updated successfully")
    ∷ ("cidrGroupUpdateError", "Could not change CIDR group")
    ∷ ("domainsNotLoaded", "Could not load domains")
    ∷ ("cidrsNotLoaded", "Could not load CIDR rules")
    ∷ ("groupsNotLoaded", "Could not load groups")
    ∷ ("addDomain", "Add domain")
    ∷ ("addCidrs", "Add CIDRs")
    ∷ ("defaultRoute", "Settings")
    ∷ ("descriptionRoute", "Select the group through which default traffic will be routed:")
    ∷ ("defaultRouteUpdated", "Default route updated")
    ∷ ("allGroups", "All groups")
    ∷ ("filterByGroup", "Filter by group")
    ∷ ("bulkSelectGroup", "Select a group")
    ∷ ("bulkUpdateGroup", "Change group")
    ∷ ("bulkDelete", "Delete selected")
    ∷ ("bulkDeleteTitle", "Delete selected routes?")
    ∷ (
      "bulkDeleteConfirm",
      "Are you sure you want to delete {{count}} selected routes? This action cannot be undone.",
    )
    ∷ ("bulkDeleted", "Deleted {{count}} routes")
    ∷ ("bulkGroupUpdated", "Updated the group for {{count}} routes")
    ∷ ("bulkGroupPartial", "Updated the group for {{succeeded}} routes; {{failed}} failed.")
    ∷ ("bulkGroupFailed", "Could not change the group for the selected routes.")
    ∷ ("bulkDeletePartial", "Deleted {{succeeded}} routes; {{failed}} failed.")
    ∷ ("bulkDeleteFailed", "Could not delete the selected routes.")
    ∷ ("selectedRoutes", "Selected: {{count}}")
    ∷ ("clearSelection", "Clear selection")
    ∷ ("clearAllCidrs", "Clear all CIDRs")
    ∷ ("clearAllCidrsTitle", "Clear all CIDR routes?")
    ∷ (
      "clearAllCidrsConfirm",
      "Are you sure you want to delete all CIDR routes? This action cannot be undone.",
    )
    ∷ ("allCidrsCleared", "All CIDR routes have been deleted successfully.")
    ∷ ("clearAllCidrsError", "Failed to delete CIDR routes.")
    ∷ []
