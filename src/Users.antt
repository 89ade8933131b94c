-- ===== src/Users.antt =====
-- The page of the administrators (admin/front/src/pages/UsersPage.tsx).
pub mod Laws
pub mod Messages
use split_proxy.Base.{
  ℕ, ◌≡◌, ◌≢◌, Bool, true, false, Option, none, some, List, [], if◌then◌else◌, Member, ◌++◌,
}
use split_proxy.Api.{User, Paginated, get_users, remove_user, Outcome, fulfilled, rejected}
use split_proxy.Script.{
  Script, skip, modify, show_message, call, go, ◌>>=◌, ◌>>◌, success, warning, failure, translated,
  describe,
}
use split_proxy.Text.{codes, string_of_nat}

pub record UsersPage : Type 0 where
  pub users : List User
  pub loading : Bool
  pub deleting_user : Option User
  pub delete_loading : Bool

abbrev pub initial : UsersPage
initial = record { users = []; loading = true; deleting_user = none; delete_loading = false }

abbrev pub Handler : Type 0
Handler = Script UsersPage (Unit {0})

unfoldable pub users_loaded : Outcome (Paginated User) → Handler
users_loaded (fulfilled response) = modify (λ s. record s { users = response.results })
users_loaded (rejected e) = show_message failure (translated "usersPage.usersNotLoaded" [])

unfoldable pub load_users : Handler
load_users = do
  modify (λ s. record s { loading = true })
  r ← call get_users
  users_loaded r
  modify (λ s. record s { loading = false })

unfoldable pub user_removed : Outcome (Unit {0}) → Handler
user_removed (fulfilled _) = do
  show_message success (translated "usersPage.userDeleted" [])
  modify (λ s. record s { deleting_user = none })
  load_users
user_removed (rejected e) = show_message failure (describe e "usersPage.deletionError")

-- The `else` branch: the request and what follows it.
unfoldable pub remove_plain : User → Handler
remove_plain user = do r ← call (remove_user user.id); user_removed r

unfoldable pub remove_chosen : Option User → Handler
remove_chosen none = skip
remove_chosen (some user) = do
  modify (λ s. record s { delete_loading = true })
  if user.is_superuser
      then show_message warning (translated "usersPage.cantDeleteSuperUser" [])
      else remove_plain user
  modify (λ s. record s { delete_loading = false })

unfoldable pub remove : UsersPage → Handler
remove c = remove_chosen c.deleting_user

pub data Input : Type 0 where
  load_effect click_add cancel_delete confirm_delete : Input
  click_edit click_delete : User → Input

-- The delete button is shown only in the row of a user who is no superuser.
abbrev pub Enabled : UsersPage → Input → Type 0
Enabled c (click_edit user) = Member user c.users
Enabled c (click_delete user) = Member user c.users × (user.is_superuser ≡ false)
Enabled c cancel_delete = c.deleting_user ≢ none
Enabled c confirm_delete = (c.deleting_user ≢ none) × (c.delete_loading ≡ false)
Enabled c _ = Unit

unfoldable pub respond : UsersPage → Input → Handler
respond c load_effect = load_users
respond c click_add = go (codes "/users/new") false
respond c cancel_delete = modify (λ s. record s { deleting_user = none })
respond c confirm_delete = remove c
respond c (click_edit user) = go (codes "/users/" ++ (string_of_nat user.id ++ codes "/edit")) false
respond c (click_delete user) = modify (λ s. record s { deleting_user = some user })

pub data Starts (c : UsersPage) : Handler → Type 0 where
  by : (i : Input) → Enabled c i → Starts c (respond c i)
