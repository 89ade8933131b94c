-- ===== src/I18n/Tables.antt =====
-- Tables of texts by section and name, and what a text leaves open.
use split_proxy.Base.{
  ◌&&◌, Text, String, Option, none, some, List, [], ◌∷◌, ◌++◌, length, nat_beq, text_beq,
  if◌then◌else◌,
}
use split_proxy.Text.{codes, starts_with, slice}

-- Names with their texts.
abbrev pub Section : Type 0
Section = List (String × String)

-- Named sections.
abbrev pub Table : Type 0
Table = List (String × Section)

unfoldable pub find_name : Text → Section → Option String
find_name name [] = none
find_name name ((k, v) ∷ es) = if text_beq (codes k) name then some v else find_name name es

-- `section.`
abbrev pub prefix : String → Text
prefix section = codes section ++ b'.' ∷ []

-- The text of a key `section.name`.
unfoldable pub find_text : Text → Table → Option String
find_text key [] = none
find_text key ((section, es) ∷ t) =
    if starts_with (prefix section) key
    then find_name (slice (length (prefix section)) key) es
    else find_text key t

-- The name of a placeholder ends at `}` or at the `,` before its format.
unfoldable pub placeholder_name : Text → Text
placeholder_name [] = []
placeholder_name (c ∷ s) =
    let rest = placeholder_name s in
    if nat_beq c b'}' then [] else if nat_beq c b',' then [] else c ∷ rest

-- The names behind `{{`, in order.
unfoldable pub placeholders : Text → List Text
placeholders [] = []
placeholders (c ∷ s) =
    let rest = placeholders s in
    if nat_beq c b'{' && starts_with (b'{' ∷ []) s
    then placeholder_name (slice 1 s) ∷ rest
    else rest
