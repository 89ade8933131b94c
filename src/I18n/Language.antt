-- ===== src/I18n/Language.antt =====
-- The language of the panel (admin/front/src/shared/i18n/index.ts,
-- admin/front/src/components/LanguageSwitcher.tsx).
use split_proxy.Base.{◌≡◌, ◌≢◌, refl, Text, String, Option, none, some, List, [], ◌∷◌}
use split_proxy.Browser.{Stored, plain, json_user, Storage, get_item, set_item, get_item-set_item}
use split_proxy.Text.{codes}
use split_proxy.Auth.{restore}

abbrev pub language_key : String
language_key = "language"

-- `savedLanguage || "en"`
unfoldable pub language_or_english : Option Stored → Text
language_or_english none = codes "en"
language_or_english (some (json_user u)) = codes "en"
language_or_english (some (plain [])) = codes "en"
language_or_english (some (plain (c ∷ l))) = c ∷ l

-- The language that the panel starts in.
unfoldable pub initial_language : Storage → Text
initial_language m = language_or_english (get_item language_key m)

-- What `changeLanguage` stores, once the library has changed the language of the page.
unfoldable pub change_language : Text → Storage → Storage
change_language language m = set_item language_key (plain language) m

-- The languages that the switch offers, with their labels.
unfoldable pub language_options : List (Text × String)
language_options = (codes "ru", "RU") ∷ (codes "en", "EN") ∷ []

language_or_english-nonempty : (l : Text) → l ≢ [] → language_or_english (some (plain l)) ≡ l
unfolding language_or_english
language_or_english-nonempty [] h = absurd (h refl)
language_or_english-nonempty (c ∷ l) h = refl

-- A language that is chosen is the one that the panel starts in after a reload, and the choice
-- leaves the session that a reload restores as it is.
pub change_language-kept :
    (l : Text) (m : Storage)
    → l ≢ []
    → (initial_language (change_language l m) ≡ l) × (restore (change_language l m) ≡ restore m)
unfolding initial_language change_language restore
change_language-kept l m h =
    (simp get_item-set_item (language_or_english-nonempty l h), simp get_item-set_item refl)
