-- ===== src/Forms.antt =====
-- The three forms (admin/front/src/pages/UserFormPage.tsx, pages/proxy/NewProxyFormPage.tsx and
-- pages/group/NewGroupFormPage.tsx). The values that the form library's validation gives, or what
-- it throws, and the record's id in the address are arguments.
pub mod Laws
pub mod Messages
use split_proxy.Base.{
  ℕ, Bool, true, false, Text, text_beq, String, Option, none, some, List, [], if◌then◌else◌,
}
use split_proxy.Api.{
  User, UserInput, ProxyItem, ProxyInput, GroupItem, GroupInput, get_user, create_user, update_user,
  get_proxy, create_proxy, update_proxy, get_group, create_group, update_group, Thrown, error,
  other, Outcome, fulfilled, rejected,
}
use split_proxy.Script.{
  Script, skip, modify, show_message, call, go, ◌>>=◌, ◌>>◌, success, failure, own, translated,
  describe,
}
use split_proxy.Text.{codes}

-- The state of a form over inputs of type `A`: its fields, once they are set.
pub record Form (A : Type 0) : Type 0 where
  pub fields : Option A
  pub loading : Bool

-- `useState(Boolean(id))`
abbrev pub opened : {A : Type 0} → Option ℕ → Form A
opened none = record { fields = none; loading = false }
opened (some id) = record { fields = none; loading = true }

module _ {A : Type 0} where
  -- `if (e instanceof Error && e.message !== "validation") message.error(e.message);`
  unfoldable pub report_failure : Thrown → Script (Form A) (Unit {0})
  report_failure (error m) =
      if text_beq m (codes "validation") then skip else show_message failure (own m)
  report_failure other = skip

  -- The end of a `try` block, behind its request.
  unfoldable pub saved : String → Text → Outcome (Unit {0}) → Script (Form A) (Unit {0})
  saved key list_path (fulfilled _) = do
    show_message success (translated key [])
    go list_path false
  saved key list_path (rejected e) = report_failure e

  -- The `catch` block of a load.
  unfoldable pub not_loaded : String → Text → Thrown → Script (Form A) (Unit {0})
  not_loaded key list_path e = do show_message failure (describe e key); go list_path true

unfoldable pub user_loaded : Outcome User → Script (Form UserInput) (Unit {0})
user_loaded (fulfilled user) = modify (λ s. record s {
  fields = some (record { username = user.username; password = user.password });
})
user_loaded (rejected e) = not_loaded "userFormPage.userNotLoaded" (codes "/users") e

unfoldable pub load_user_form : Option ℕ → Script (Form UserInput) (Unit {0})
load_user_form none = modify (λ s. record s { loading = false })
load_user_form (some id) = do
  r ← call (get_user id)
  user_loaded r
  modify (λ s. record s { loading = false })

unfoldable pub send_user : Option ℕ → UserInput → Script (Form UserInput) (Unit {0})
send_user (some id) values = do
  r ← call (update_user id values)
  saved "userFormPage.userUpdated" (codes "/users") r
send_user none values = do
  r ← call (create_user values)
  saved "userFormPage.userCreated" (codes "/users") r

unfoldable pub submit_user : Option ℕ → Outcome UserInput → Script (Form UserInput) (Unit {0})
submit_user id (rejected e) = report_failure e
submit_user id (fulfilled values) = send_user id values

unfoldable pub proxy_loaded : Outcome ProxyItem → Script (Form ProxyInput) (Unit {0})
proxy_loaded (fulfilled proxy) = modify (λ s. record s {
  fields = some (record { username = proxy.username; password = proxy.password });
})
proxy_loaded (rejected e) = not_loaded "newProxyFormPage.proxyNotLoaded" (codes "/proxies") e

unfoldable pub load_proxy_form : Option ℕ → Script (Form ProxyInput) (Unit {0})
load_proxy_form none = modify (λ s. record s { loading = false })
load_proxy_form (some id) = do
  r ← call (get_proxy id)
  proxy_loaded r
  modify (λ s. record s { loading = false })

unfoldable pub send_proxy : Option ℕ → ProxyInput → Script (Form ProxyInput) (Unit {0})
send_proxy (some id) values = do
  r ← call (update_proxy id values)
  saved "newProxyFormPage.proxyUpdated" (codes "/proxies") r
send_proxy none values = do
  r ← call (create_proxy values)
  saved "newProxyFormPage.proxyCreated" (codes "/proxies") r

unfoldable pub submit_proxy : Option ℕ → Outcome ProxyInput → Script (Form ProxyInput) (Unit {0})
submit_proxy id (rejected e) = report_failure e
submit_proxy id (fulfilled values) = send_proxy id values

unfoldable pub group_loaded : Outcome GroupItem → Script (Form GroupInput) (Unit {0})
group_loaded (fulfilled group) =
    modify (λ s. record s { fields = some (record { group_name = group.group_name }) })
group_loaded (rejected e) = not_loaded "newGroupFormPage.groupNotLoaded" (codes "/groups") e

unfoldable pub load_group_form : Option ℕ → Script (Form GroupInput) (Unit {0})
load_group_form none = modify (λ s. record s { loading = false })
load_group_form (some id) = do
  r ← call (get_group id)
  group_loaded r
  modify (λ s. record s { loading = false })

unfoldable pub send_group : Option ℕ → GroupInput → Script (Form GroupInput) (Unit {0})
send_group (some id) values = do
  r ← call (update_group id values)
  saved "newGroupFormPage.groupUpdated" (codes "/groups") r
send_group none values = do
  r ← call (create_group values)
  saved "newGroupFormPage.groupCreated" (codes "/groups") r

unfoldable pub submit_group : Option ℕ → Outcome GroupInput → Script (Form GroupInput) (Unit {0})
submit_group id (rejected e) = report_failure e
submit_group id (fulfilled values) = send_group id values
