-- ===== src/Tests/Texts.antt =====
-- The two languages and the texts of the pages at concrete inputs.
use split_proxy.Base.{◌≡◌, refl, some, [], ◌∷◌, arith}
use split_proxy.Text.{codes}
use split_proxy.Script.Shows.{Shows}
use split_proxy.I18n.{en, ru, find_text}
use split_proxy.I18n.Laws.{opened, translations_agree}
use split_proxy.I18n.Keys.{IsTranslated}
use split_proxy.Users
use split_proxy.Proxies
use split_proxy.Groups
use split_proxy.Splitting.Cidrs
use split_proxy.Splitting.Domains
use split_proxy.Splitting.Domains.Messages.{IsShown}
use split_proxy.Splitting.Defaults.{load_groups, load_default_route, change_default_route}
use split_proxy.Splitting.DefaultsMessages.{IsShownDefault}
use split_proxy.Messages.{Starts-IsTranslated}
use split_proxy.Tests.Data.{ascii, a_user}

translations_agree_example :
    opened (find_text (codes "groupsPage.bulkGroupPartial") en)
    ≡ opened (find_text (codes "groupsPage.bulkGroupPartial") ru)
translations_agree_example = translations_agree (codes "groupsPage.bulkGroupPartial")

-- The dialog of a user, who is no superuser, is confirmed, a selected proxy is deleted, and the other pages load.
Starts-IsTranslated_example :
    (Shows IsTranslated
        (Users.respond (record Users.initial { deleting_user = some a_user }) Users.confirm_delete)
      × (Shows IsTranslated (
            Proxies.respond
              (record Proxies.initial { selected_row_keys = 1 ∷ [] })
              Proxies.click_bulk_delete)
          × (Shows IsTranslated (Groups.respond Groups.initial Groups.workers_effect)
              × (Shows IsTranslated (Cidrs.respond Cidrs.initial Cidrs.click_add)
                  × Shows IsShown (Domains.respond ascii Domains.initial Domains.click_add)))))
    × (Shows IsShownDefault load_groups
        × (Shows IsShownDefault load_default_route × Shows IsShownDefault (change_default_route 2)))
Starts-IsTranslated_example =
    Starts-IsTranslated (record Users.initial { deleting_user = some a_user })
      (record Proxies.initial { selected_row_keys = 1 ∷ [] }) Groups.initial Cidrs.initial ascii
      Domains.initial 2 _ _ _ _ _ (Users.by Users.confirm_delete ((λ e. cc e), refl))
      (Proxies.by Proxies.click_bulk_delete ((omega arith), refl))
      (Groups.by Groups.workers_effect tt) (Cidrs.by Cidrs.click_add refl)
      (Domains.by Domains.click_add refl)
