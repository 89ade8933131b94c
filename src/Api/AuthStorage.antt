-- ===== src/Api/AuthStorage.antt =====
-- `authStorage` (admin/front/src/shared/lib/authStorage.ts).
use split_proxy.Base.{Text, String, Option}
use split_proxy.Browser.{Stored, plain, Storage, get_item, set_item, remove_item}

abbrev pub token_key : String
token_key = "ACCESS_TOKEN"

unfoldable pub get_token : Storage → Option Stored
get_token = get_item token_key

unfoldable pub set_token : Text → Storage → Storage
set_token token = set_item token_key (plain token)

unfoldable pub remove_token : Storage → Storage
remove_token = remove_item token_key
