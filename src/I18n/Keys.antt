-- ===== src/I18n/Keys.antt =====
-- The keys that have a text in both languages, and the options that fill these texts.
use split_proxy.Base.{
  ◌≡◌, Bool, true, false, ◌&&◌, text_beq, String, Option, none, some, List, not, any,
}
use split_proxy.Text.{codes, starts_with, slice}
use split_proxy.I18n.Tables.{find_name, find_text, placeholder_name, placeholders}
use split_proxy.I18n.En.{en}
use split_proxy.I18n.Ru.{ru}

-- Every name that the text leaves open is one of the names.
abbrev is_filled : List String → Option String → Bool
is_filled names none = false
is_filled names (some v) =
    not (any (λ p. not (any (λ n. text_beq (codes n) p) names)) (placeholders (codes v)))

unfoldable pub is_translated : String → List String → Bool
unfolding find_text find_name placeholders placeholder_name starts_with slice text_beq en ru
is_translated key names =
    is_filled names (find_text (codes key) en) && is_filled names (find_text (codes key) ru)

-- The key has a text in both languages, and options with these names fill it.
abbrev pub IsTranslated : String → List String → Type 0
IsTranslated key names = is_translated key names ≡ true
