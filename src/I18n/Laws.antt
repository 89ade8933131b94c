-- ===== src/I18n/Laws.antt =====
-- The two tables have the same keys, and their texts leave the same names open.
use mathlib.Core.Option
use mathlib.Core.Path.{ap₂}
use split_proxy.Base.{
  ◌≡◌, refl, ap, Bool, true, false, ◌&&◌, Text, String, Option, some, List, [], ◌∷◌, arith,
  text_beq, text_beq_iff, length, Bool-cases, inl, inr,
}
use split_proxy.Text.{codes, starts_with, slice}
use split_proxy.I18n.Tables.{
  Section, Table, prefix, find_name, find_text, placeholder_name, placeholders,
}
use split_proxy.I18n.En.{en}
use split_proxy.I18n.Ru.{ru}

both_true : (a b : Bool) → (a && b) ≡ true → (a ≡ true) × (b ≡ true)
both_true a b h = ground arith

abbrev all_beq : List Text → List Text → Bool
all_beq [] [] = true
all_beq (s ∷ ss) (t ∷ ts) = text_beq s t && all_beq ss ts
all_beq _ _ = false

-- What is open in a text, in the order of the text.
abbrev pub open_names : String → List Text
open_names v = placeholders (codes v)

-- The same names in the same order, with the same open names in their texts.
names_agree : Section → Section → Bool
names_agree [] [] = true
names_agree ((k, v) ∷ es) ((l, w) ∷ fs) =
    text_beq (codes k) (codes l) && (all_beq (open_names v) (open_names w) && names_agree es fs)
names_agree _ _ = false

tables_agree : Table → Table → Bool
tables_agree [] [] = true
tables_agree ((s, es) ∷ t) ((r, fs) ∷ u) =
    text_beq (codes s) (codes r) && (names_agree es fs && tables_agree t u)
tables_agree _ _ = false

en-ru-agree : tables_agree en ru ≡ true
unfolding tables_agree names_agree en ru placeholders placeholder_name starts_with slice text_beq
en-ru-agree = refl

all_beq_eq : (ss ts : List Text) → all_beq ss ts ≡ true → ss ≡ ts
all_beq_eq [] [] h = refl
all_beq_eq [] (t ∷ ts) h = cc
all_beq_eq (s ∷ ss) [] h = cc
all_beq_eq (s ∷ ss) (t ∷ ts) h =
    let both = both_true (text_beq s t) (all_beq ss ts) h in
    ap₂ ◌∷◌ ((text_beq_iff s t).0 both.0) (all_beq_eq ss ts both.1)

-- What a text leaves open, where there is a text.
abbrev pub opened : Option String → Option (List Text)
opened o = Option.map open_names o

find_name-agree :
    (name : Text) (es fs : Section)
    → names_agree es fs ≡ true
    → opened (find_name name es) ≡ opened (find_name name fs)
unfolding find_name names_agree
find_name-agree name [] [] h = refl
find_name-agree name [] (f ∷ fs) h = cc
find_name-agree name (e ∷ es) [] h = cc
find_name-agree name ((k, v) ∷ es) ((l, w) ∷ fs) h =
    let outer = both_true (text_beq (codes k) (codes l)) _ h in
    let inner = both_true (all_beq (open_names v) (open_names w)) (names_agree es fs) outer.1 in
    let key = (text_beq_iff (codes k) (codes l)).0 outer.0 in
    elim (Bool-cases (text_beq (codes l) name)) [
      | inl here ↦ rw (key, here) (ap some (all_beq_eq (open_names v) (open_names w) inner.0))
      | inr there ↦ rw (key, there) (find_name-agree name es fs inner.1)
    ]

find_text-agree :
    (key : Text) (t u : Table)
    → tables_agree t u ≡ true
    → opened (find_text key t) ≡ opened (find_text key u)
unfolding find_text tables_agree
find_text-agree key [] [] h = refl
find_text-agree key [] (f ∷ u) h = cc
find_text-agree key (e ∷ t) [] h = cc
find_text-agree key ((s, es) ∷ t) ((r, fs) ∷ u) h =
    let outer = both_true (text_beq (codes s) (codes r)) _ h in
    let inner = both_true (names_agree es fs) (tables_agree t u) outer.1 in
    let section = (text_beq_iff (codes s) (codes r)).0 outer.0 in
    elim (Bool-cases (starts_with (prefix r) key)) [
      | inl here ↦
          rw (section, here) (find_name-agree (slice (length (prefix r)) key) es fs inner.0)
      | inr there ↦ rw (section, there) (find_text-agree key t u inner.1)
    ]

-- For every key, the English table has a text exactly when the Russian one has, and then both texts
-- leave the same names open, in the same order.
pub translations_agree : (key : Text) → opened (find_text key en) ≡ opened (find_text key ru)
translations_agree key = find_text-agree key en ru en-ru-agree
