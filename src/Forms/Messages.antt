-- ===== src/Forms/Messages.antt =====
-- The texts that the three forms show.
use split_proxy.Base.{refl, ℕ, Text, String, Option, none, some, []}
use split_proxy.Api.{
  User, UserInput, ProxyInput, GroupInput, ProxyItem, GroupItem, Thrown, error, other, Outcome,
  fulfilled, rejected,
}
use split_proxy.Script.Shows.{Shows, showing}
use split_proxy.I18n.Keys.{IsTranslated, is_translated}
use split_proxy.Text.{codes}
use split_proxy.Forms.{
  Form, report_failure, saved, not_loaded, user_loaded, load_user_form, send_user, submit_user,
  proxy_loaded, load_proxy_form, send_proxy, submit_proxy, group_loaded, load_group_form,
  send_group, submit_group,
}

module _ {A : Type 0} where
  report_failure-Shows : (e : Thrown) → Shows {S = Form A} IsTranslated (report_failure e)
  unfolding report_failure
  report_failure-Shows (error m) = search showing
  report_failure-Shows other = search showing

  saved-Shows :
      (key : String) (path : Text) (o : Outcome (Unit {0}))
      → IsTranslated key []
      → Shows {S = Form A} IsTranslated (saved key path o)
  unfolding saved
  saved-Shows key path (fulfilled r) h = search (showing, h) depth 8
  saved-Shows key path (rejected e) h = report_failure-Shows e

  not_loaded-Shows :
      (key : String) (path : Text) (e : Thrown)
      → IsTranslated key []
      → Shows {S = Form A} IsTranslated (not_loaded key path e)
  unfolding not_loaded
  not_loaded-Shows key path e h = search (showing, h) depth 8

user_loaded-Shows : (o : Outcome User) → Shows IsTranslated (user_loaded o)
unfolding user_loaded is_translated
user_loaded-Shows (fulfilled r) = search showing
user_loaded-Shows (rejected e) =
    not_loaded-Shows "userFormPage.userNotLoaded" (codes "/users") e refl

pub load_user_form-Shows : (id : Option ℕ) → Shows IsTranslated (load_user_form id)
unfolding load_user_form
load_user_form-Shows none = search showing
load_user_form-Shows (some id) = search (showing, user_loaded-Shows) depth 8

send_user-Shows : (id : Option ℕ) (values : UserInput) → Shows IsTranslated (send_user id values)
unfolding send_user is_translated
send_user-Shows (some id) values = search (
  showing,
  λ (o : Outcome (Unit {0})).
      saved-Shows {A = UserInput} "userFormPage.userUpdated" (codes "/users") o refl,
)
send_user-Shows none values = search (
  showing,
  λ (o : Outcome (Unit {0})).
      saved-Shows {A = UserInput} "userFormPage.userCreated" (codes "/users") o refl,
)

pub submit_user-Shows :
    (id : Option ℕ) (o : Outcome UserInput) → Shows IsTranslated (submit_user id o)
unfolding submit_user
submit_user-Shows id (fulfilled values) = send_user-Shows id values
submit_user-Shows id (rejected e) = report_failure-Shows e

proxy_loaded-Shows : (o : Outcome ProxyItem) → Shows IsTranslated (proxy_loaded o)
unfolding proxy_loaded is_translated
proxy_loaded-Shows (fulfilled r) = search showing
proxy_loaded-Shows (rejected e) =
    not_loaded-Shows "newProxyFormPage.proxyNotLoaded" (codes "/proxies") e refl

pub load_proxy_form-Shows : (id : Option ℕ) → Shows IsTranslated (load_proxy_form id)
unfolding load_proxy_form
load_proxy_form-Shows none = search showing
load_proxy_form-Shows (some id) = search (showing, proxy_loaded-Shows) depth 8

send_proxy-Shows : (id : Option ℕ) (values : ProxyInput) → Shows IsTranslated (send_proxy id values)
unfolding send_proxy is_translated
send_proxy-Shows (some id) values = search (
  showing,
  λ (o : Outcome (Unit {0})).
      saved-Shows {A = ProxyInput} "newProxyFormPage.proxyUpdated" (codes "/proxies") o refl,
)
send_proxy-Shows none values = search (
  showing,
  λ (o : Outcome (Unit {0})).
      saved-Shows {A = ProxyInput} "newProxyFormPage.proxyCreated" (codes "/proxies") o refl,
)

pub submit_proxy-Shows :
    (id : Option ℕ) (o : Outcome ProxyInput) → Shows IsTranslated (submit_proxy id o)
unfolding submit_proxy
submit_proxy-Shows id (fulfilled values) = send_proxy-Shows id values
submit_proxy-Shows id (rejected e) = report_failure-Shows e

group_loaded-Shows : (o : Outcome GroupItem) → Shows IsTranslated (group_loaded o)
unfolding group_loaded is_translated
group_loaded-Shows (fulfilled r) = search showing
group_loaded-Shows (rejected e) =
    not_loaded-Shows "newGroupFormPage.groupNotLoaded" (codes "/groups") e refl

pub load_group_form-Shows : (id : Option ℕ) → Shows IsTranslated (load_group_form id)
unfolding load_group_form
load_group_form-Shows none = search showing
load_group_form-Shows (some id) = search (showing, group_loaded-Shows) depth 8

send_group-Shows : (id : Option ℕ) (values : GroupInput) → Shows IsTranslated (send_group id values)
unfolding send_group is_translated
send_group-Shows (some id) values = search (
  showing,
  λ (o : Outcome (Unit {0})).
      saved-Shows {A = GroupInput} "newGroupFormPage.groupUpdated" (codes "/groups") o refl,
)
send_group-Shows none values = search (
  showing,
  λ (o : Outcome (Unit {0})).
      saved-Shows {A = GroupInput} "newGroupFormPage.groupCreated" (codes "/groups") o refl,
)

pub submit_group-Shows :
    (id : Option ℕ) (o : Outcome GroupInput) → Shows IsTranslated (submit_group id o)
unfolding submit_group
submit_group-Shows id (fulfilled values) = send_group-Shows id values
submit_group-Shows id (rejected e) = report_failure-Shows e
