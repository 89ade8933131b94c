-- ===== src/Users/Messages.antt =====
-- The texts that the page of the administrators shows.
use split_proxy.Base.{Option, none, some}
use split_proxy.Api.{User, Paginated, Outcome, fulfilled, rejected}
use split_proxy.Script.Shows.{Shows, showing}
use split_proxy.I18n.Keys.{IsTranslated, is_translated}
use split_proxy.Users.{
  UsersPage, users_loaded, load_users, user_removed, remove_plain, remove_chosen, remove, respond,
  Starts, by, Handler, load_effect, click_add, cancel_delete, confirm_delete, click_edit,
  click_delete,
}

users_loaded-Shows : (o : Outcome (Paginated User)) → Shows IsTranslated (users_loaded o)
unfolding users_loaded is_translated
users_loaded-Shows (fulfilled r) = search showing
users_loaded-Shows (rejected e) = search showing

load_users-Shows : Shows IsTranslated load_users
unfolding load_users
load_users-Shows = search (showing, users_loaded-Shows) depth 8

user_removed-Shows : (o : Outcome (Unit {0})) → Shows IsTranslated (user_removed o)
unfolding user_removed is_translated
user_removed-Shows (fulfilled r) = search (showing, load_users-Shows) depth 8
user_removed-Shows (rejected e) = search showing

remove_plain-Shows : (user : User) → Shows IsTranslated (remove_plain user)
unfolding remove_plain
remove_plain-Shows user = search (showing, user_removed-Shows) depth 8

remove_chosen-Shows : (chosen : Option User) → Shows IsTranslated (remove_chosen chosen)
unfolding remove_chosen is_translated
remove_chosen-Shows none = search showing
remove_chosen-Shows (some user) = search (showing, remove_plain-Shows) depth 8

pub Starts-Shows : (c : UsersPage) (h : Handler) → Starts c h → Shows IsTranslated h
unfolding respond remove
Starts-Shows c h (by load_effect e) = load_users-Shows
Starts-Shows c h (by click_add e) = search showing
Starts-Shows c h (by cancel_delete e) = search showing
Starts-Shows c h (by confirm_delete e) = remove_chosen-Shows c.deleting_user
Starts-Shows c h (by (click_edit user) e) = search showing
Starts-Shows c h (by (click_delete user) e) = search showing
