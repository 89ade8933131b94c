-- ===== src/Users/Laws.antt =====
-- The requests that the page of the administrators can send.
use split_proxy.Base.{◌≡◌, ◌⊎◌, inl, inr, refl, false, Option, none, some, Bool-cases}
use split_proxy.Api.{User, Paginated, ApiCall, get_users, remove_user, Outcome, fulfilled, rejected}
use split_proxy.Script.Sends.{Sends, sending}
use split_proxy.Users.{
  UsersPage, users_loaded, load_users, user_removed, remove_plain, remove_chosen, remove, respond,
  Starts, by, Handler, load_effect, click_add, cancel_delete, confirm_delete, click_edit,
  click_delete,
}

-- A reload, or the deletion of the user in the dialog, who is no superuser.
abbrev pub Permitted : Option User → ApiCall → Type 0
Permitted chosen q =
    (q ≡ get_users)
    ⊎ ((user : User) × ((chosen ≡ some user)
          × ((user.is_superuser ≡ false) × (q ≡ remove_user user.id))))

users_loaded-Sends :
    {P : ApiCall → Type 0} (o : Outcome (Paginated User)) → Sends P (users_loaded o)
unfolding users_loaded
users_loaded-Sends (fulfilled r) = search sending
users_loaded-Sends (rejected e) = search sending

load_users-Sends : (chosen : Option User) → Sends (Permitted chosen) load_users
unfolding load_users
load_users-Sends chosen =
    let p : Permitted chosen get_users = inl refl in search (sending, users_loaded-Sends, p) depth 8

user_removed-Sends :
    (chosen : Option User) (o : Outcome (Unit {0})) → Sends (Permitted chosen) (user_removed o)
unfolding user_removed
user_removed-Sends chosen (fulfilled _) = search (sending, load_users-Sends) depth 8
user_removed-Sends chosen (rejected e) = search sending

remove_plain-Sends :
    (user : User) → user.is_superuser ≡ false → Sends (Permitted (some user)) (remove_plain user)
unfolding remove_plain
remove_plain-Sends user h =
    let p : Permitted (some user) (remove_user user.id) = inr (user, (refl, (h, refl))) in
    search (sending, user_removed-Sends, p) depth 8

remove_chosen-Sends : (chosen : Option User) → Sends (Permitted chosen) (remove_chosen chosen)
unfolding remove_chosen
remove_chosen-Sends none = search sending
remove_chosen-Sends (some user) = elim (Bool-cases user.is_superuser) [
  | inl super ↦ simp super (search sending depth 8)
  | inr plain ↦ simp plain (search (sending, remove_plain-Sends user plain) depth 8)
]

-- Whatever starts on the page of the administrators, on any answers: the only requests are the
-- reload and the deletion of the user in the dialog, and that one only if it is no superuser.
pub Starts-Permitted :
    (c : UsersPage) (h : Handler) → Starts c h → Sends (Permitted c.deleting_user) h
unfolding respond remove
Starts-Permitted c h (by load_effect e) = load_users-Sends c.deleting_user
Starts-Permitted c h (by click_add e) = search sending
Starts-Permitted c h (by cancel_delete e) = search sending
Starts-Permitted c h (by confirm_delete e) = remove_chosen-Sends c.deleting_user
Starts-Permitted c h (by (click_edit user) e) = search sending
Starts-Permitted c h (by (click_delete user) e) = search sending
