-- ===== src/Browser.antt =====
-- The browser's `localStorage` and the address that the scripts read and set: the platform's own
-- behaviour, as far as the source uses it.
use text.Mathlib.Text.{◌==◌ as str_eq}
use text.Mathlib.TextEquality.{eq_iff}
use split_proxy.Base.{
  ◌≡◌, refl, Text, String, Option, none, some, List, [], ◌∷◌, arith, if◌then◌else◌,
}

-- The signed-in user as `auth.tsx` stores it.
pub record SessionUser : Type 0 where
  pub id : Text
  pub name : Text
  pub email : Text
  pub username : Text

-- A stored value: a text, or the JSON text of a user, which `JSON.parse` gives back as it was.
pub data Stored : Type 0 where
  plain : Text → Stored
  json_user : SessionUser → Stored

abbrev pub Storage : Type 0
Storage = List (String × Stored)

unfoldable pub get_item : String → Storage → Option Stored
get_item key [] = none
get_item key ((k, v) ∷ m) = if str_eq k key then some v else get_item key m

unfoldable pub set_item : String → Stored → Storage → Storage
set_item key v [] = (key, v) ∷ []
set_item key v ((k, w) ∷ m) = if str_eq k key then (key, v) ∷ m else (k, w) ∷ set_item key v m

-- Every entry of the key goes.
unfoldable pub remove_item : String → Storage → Storage
remove_item key [] = []
remove_item key ((k, v) ∷ m) =
    if str_eq k key then remove_item key m else (k, v) ∷ remove_item key m

pub get_item-set_item :
    (key j : String) (v : Stored) (m : Storage)
    → get_item j (set_item key v m) ≡ (if str_eq key j then some v else get_item j m)
unfolding get_item set_item
get_item-set_item key j v [] = refl
get_item-set_item key j v ((k, w) ∷ m) =
    ground (arith, eq_iff key j, eq_iff k key, eq_iff k j, get_item-set_item key j v m)

pub get_item-remove_item :
    (key j : String) (m : Storage)
    → get_item j (remove_item key m) ≡ (if str_eq key j then none else get_item j m)
unfolding get_item remove_item
get_item-remove_item key j [] = ground arith
get_item-remove_item key j ((k, w) ∷ m) =
    ground (arith, eq_iff key j, eq_iff k key, eq_iff k j, get_item-remove_item key j m)

-- `location` is `some path` once a script has sent the browser to another page.
pub record Browser : Type 0 where
  pub storage : Storage
  pub location : Option Text
