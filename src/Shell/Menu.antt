-- ===== src/Shell/Menu.antt =====
-- The menu of `AdminLayout` and the drawer that holds it on small screens
-- (admin/front/src/components/AdminLayout.tsx).
use split_proxy.Base.{Bool, true, false, Text, String, List, [], ◌∷◌, filter, text_beq}
use split_proxy.Text.{codes}

-- An item of `menuItems`: its key, the key of its label, and where its link goes.
pub record MenuItem : Type 0 where
  pub key : Text
  pub label : String
  pub to : Text

unfoldable pub menu_items : List MenuItem
menu_items =
    record { key = codes "/"; label = "adminLayout.main"; to = codes "/" }
    ∷ record { key = codes "/groups"; label = "adminLayout.groups"; to = codes "/groups" }
    ∷ record { key = codes "/splitting/"; label = "adminLayout.navigate"; to = codes "/splitting/" }
    ∷ record { key = codes "/proxies"; label = "adminLayout.proxyAccounts"; to = codes "/proxies" }
    ∷ record { key = codes "/users"; label = "adminLayout.admins"; to = codes "/users" }
    ∷ []

-- `selectedKeys={[location.pathname]}`: the items that are shown as selected.
unfoldable pub selected_items : Text → List MenuItem
selected_items pathname = filter (λ item. text_beq item.key pathname) menu_items

pub record AdminLayout : Type 0 where
  pub mobile_open : Bool
  pub pathname : Text

unfoldable pub open_menu : AdminLayout → AdminLayout
open_menu l = record l { mobile_open = true }

unfoldable pub close_menu : AdminLayout → AdminLayout
close_menu l = record l { mobile_open = false }

-- `handleMenuClick`, behind the navigation of the item's link.
unfoldable pub click_item : MenuItem → AdminLayout → AdminLayout
click_item item l = record l { mobile_open = false; pathname = item.to }
