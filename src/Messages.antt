-- ===== src/Messages.antt =====
-- The texts that the pages show: messages and dialogs of all handlers, against the two tables of
-- admin/front/src/shared/i18n/locales.
use split_proxy.Base.{ℕ, Option}
use split_proxy.Api.{UserInput, ProxyInput, GroupInput, Outcome}
use split_proxy.Script.Shows.{Shows}
use split_proxy.I18n.Keys.{IsTranslated}
use split_proxy.Users
use split_proxy.Users.Messages as UsersMessages
use split_proxy.Proxies
use split_proxy.Proxies.Messages as ProxiesMessages
use split_proxy.Groups
use split_proxy.Groups.Messages as GroupsMessages
use split_proxy.Splitting.Cidrs
use split_proxy.Splitting.Cidrs.Messages as CidrsMessages
use split_proxy.Splitting.Domains
use split_proxy.Splitting.Domains.Messages as DomainsMessages
use split_proxy.Splitting.Validation.{Unicode}
use split_proxy.Splitting.Defaults.{load_groups, load_default_route, change_default_route}
use split_proxy.Splitting.DefaultsMessages.{
  IsShownDefault, load_groups-Shows, load_default_route-Shows, change_default_route-Shows,
}
use split_proxy.Forms.{
  submit_user, submit_proxy, submit_group, load_user_form, load_proxy_form, load_group_form,
}
use split_proxy.Forms.Messages.{
  submit_user-Shows, submit_proxy-Shows, submit_group-Shows, load_user_form-Shows,
  load_proxy_form-Shows, load_group_form-Shows,
}
use split_proxy.Home.{load_dashboard}
use split_proxy.Home.Messages.{load_dashboard-Shows}

-- Whatever starts on the pages of the administrators, of the proxies and of the groups and on the
-- tab of the ranges, on any answers: the key of each message and of each text of a dialog has a
-- text in both languages, and its options give every name that these texts leave open. On the tab
-- of the domains this holds of every key but `invalidDomains`, the one of the message for patterns
-- that are missing or not valid. The loads and the change of the default route show keys of which
-- this holds, or `defaultRouteNotLoaded` or `defaultRouteUpdateError`.
pub Starts-IsTranslated :
    (users : Users.UsersPage) (proxies : Proxies.ProxiesPage) (groups : Groups.GroupsPage)
    (cidrs : Cidrs.CidrsTab) (u : Unicode) (domains : Domains.DomainsTab) (group : ℕ)
    (a : Users.Handler) (b : Proxies.Handler) (c : Groups.Handler) (d : Cidrs.Handler)
    (e : Domains.Handler)
    → Users.Starts users a
    → Proxies.Starts proxies b
    → Groups.Starts groups c
    → Cidrs.Starts cidrs d
    → Domains.Starts u domains e
    → (Shows IsTranslated a
        × (Shows IsTranslated b
            × (Shows IsTranslated c × (Shows IsTranslated d × Shows DomainsMessages.IsShown e))))
      × (Shows IsShownDefault load_groups
          × (Shows IsShownDefault load_default_route
              × Shows IsShownDefault (change_default_route group)))
Starts-IsTranslated users proxies groups cidrs u domains group a b c d e sa sb sc sd se = (
  (
    UsersMessages.Starts-Shows users a sa,
    (
      ProxiesMessages.Starts-Shows proxies b sb,
      (
        GroupsMessages.Starts-Shows groups c sc,
        (CidrsMessages.Starts-Shows cidrs d sd, DomainsMessages.Starts-Shows u domains e se),
      ),
    ),
  ),
  (load_groups-Shows, (load_default_route-Shows, change_default_route-Shows group)),
)

-- The loads and the submissions of the three forms and the load of the dashboard show only texts
-- that both languages have and that their options fill, on any answers.
forms-IsTranslated :
    (id : Option ℕ) (user : Outcome UserInput) (proxy : Outcome ProxyInput)
    (group : Outcome GroupInput)
    → Shows IsTranslated (load_user_form id)
      × (Shows IsTranslated (submit_user id user)
          × (Shows IsTranslated (load_proxy_form id)
              × (Shows IsTranslated (submit_proxy id proxy)
                  × (Shows IsTranslated (load_group_form id)
                      × (Shows IsTranslated (submit_group id group)
                          × Shows IsTranslated load_dashboard)))))
forms-IsTranslated id user proxy group = (
  load_user_form-Shows id,
  (
    submit_user-Shows id user,
    (
      load_proxy_form-Shows id,
      (
        submit_proxy-Shows id proxy,
        (load_group_form-Shows id, (submit_group-Shows id group, load_dashboard-Shows)),
      ),
    ),
  ),
)
