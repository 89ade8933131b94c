-- ===== src/Api/Entries.antt =====
-- The parameters of a list as entries that may be missing, and what a query of them reads as.
use mathlib.Core.Option
use mathlib.Core.List.{append-nil}
use split_proxy.Base.{
  ◌≡◌, refl, sym, ◌∙◌, ap, Text, String, Option, none, some, List, [], ◌∷◌, ◌++◌, All, length,
  arith, nat_beq, text_beq, if◌then◌else◌,
}
use split_proxy.Text.{codes, split, trim, params_to_string}
use split_proxy.Text.Decoding.{read_query, read_pairs}
use split_proxy.Text.Queries.{IsWhole, AreWhole, read_query-params_to_string}
use split_proxy.Text.Ascii.{IsAscii, IsAscii-IsWhole, string_of_nat-IsAscii}
use split_proxy.Api.Calls.{RouteGroupFilter, group_id, no_group}
use split_proxy.Api.Building.{param, trimmed_param, group_text, query_suffix}
use split_proxy.Api.WorkerApi

-- The parameters of what follows the path of a URL, which is nothing or a query behind `?`.
abbrev pub read_suffix : Text → Option (List (Text × Text))
read_suffix [] = some []
read_suffix (c ∷ s) = if nat_beq c b'?' then read_query s else none

-- `query.get(name)`
abbrev pub get_param : String → List (Text × Text) → Option Text
get_param name [] = none
get_param name ((k, v) ∷ ps) = if text_beq k (codes name) then some v else get_param name ps

-- A text, where it is there and not empty.
abbrev pub nonempty : Option Text → Option Text
nonempty none = none
nonempty (some []) = none
nonempty (some (c ∷ s)) = some (c ∷ s)

abbrev pub Present : (Text → Type 0) → Option Text → Type 0
Present P none = Unit
Present P (some s) = P s

read_suffix_lem :
    (query : Text) (ps : List (Text × Text))
    → read_query query ≡ some ps
    → read_suffix (if nat_beq (length query) 0 then [] else b'?' ∷ query) ≡ some ps
read_suffix_lem [] ps h = unfold read_query split read_pairs in h
read_suffix_lem (c ∷ s) ps h = ground arith

read_suffix-query_suffix :
    (ps : List (Text × Text)) → AreWhole ps → read_suffix (query_suffix ps) ≡ some ps
unfolding query_suffix
read_suffix-query_suffix ps h =
    read_suffix_lem (params_to_string ps) ps (read_query-params_to_string ps h)

-- The parameters that are there, in order.
abbrev pub entries : List (String × Option Text) → List (Text × Text)
entries [] = []
entries ((name, none) ∷ es) = entries es
entries ((name, some v) ∷ es) = (codes name, v) ∷ entries es

abbrev pub EntryIsWhole : String × Option Text → Type 0
EntryIsWhole e = IsAscii (codes e.0) × Present IsWhole e.1

entries-AreWhole : (es : List (String × Option Text)) → All EntryIsWhole es → AreWhole (entries es)
entries-AreWhole [] h = tt
entries-AreWhole ((name, none) ∷ es) h = entries-AreWhole es h.1
entries-AreWhole ((name, some v) ∷ es) h =
    ((IsAscii-IsWhole (codes name) h.0.0, h.0.1), entries-AreWhole es h.1)

abbrev first_of : Option Text → Option Text → Option Text
first_of none rest = rest
first_of (some v) rest = some v

pub first_of-none : (v : Option Text) → first_of v none ≡ v
first_of-none none = refl
first_of-none (some v) = refl

abbrev pub value_of : String → List (String × Option Text) → Option Text
value_of name [] = none
value_of name ((k, v) ∷ es) =
    if text_beq (codes k) (codes name) then first_of v (value_of name es) else value_of name es

pub get_param-entries :
    (name : String) (es : List (String × Option Text))
    → get_param name (entries es) ≡ value_of name es
get_param-entries name [] = refl
get_param-entries name ((k, none) ∷ es) = ground (arith, get_param-entries name es)
get_param-entries name ((k, some v) ∷ es) = ground (arith, get_param-entries name es)

module _ (es : List (String × Option Text)) where
  pub param-entries :
      {A : Type 0} (name : String) (show : A → Text) (o : Option A)
      → param name show o ++ entries es ≡ entries ((name, Option.map show o) ∷ es)
  param-entries name show none = refl
  param-entries name show (some a) = refl

  trimmed_text-entries :
      (name : String) (s : Text)
      → (if nat_beq (length s) 0 then [] else (codes name, s) ∷ []) ++ entries es
        ≡ entries ((name, nonempty (some s)) ∷ es)
  trimmed_text-entries name [] = refl
  trimmed_text-entries name (c ∷ s) = ground arith

  pub trimmed_param-entries :
      (name : String) (o : Option Text)
      → trimmed_param name o ++ entries es ≡ entries ((name, nonempty (Option.map trim o)) ∷ es)
  trimmed_param-entries name none = refl
  trimmed_param-entries name (some s) = trimmed_text-entries name (trim s)

  pub guid_param-entries :
      (o : Option Text) → WorkerApi.guid_param o ++ entries es ≡ entries (("guid", nonempty o) ∷ es)
  unfolding WorkerApi.guid_param
  guid_param-entries none = refl
  guid_param-entries (some []) = refl
  guid_param-entries (some (c ∷ s)) = refl

pub map-IsWhole :
    {A : Type 0} (show : A → Text) (o : Option A)
    → ((a : A) → IsAscii (show a))
    → Present IsWhole (Option.map show o)
map-IsWhole show none h = tt
map-IsWhole show (some a) h = IsAscii-IsWhole (show a) (h a)

pub nonempty-IsWhole : (o : Option Text) → Present IsWhole o → Present IsWhole (nonempty o)
nonempty-IsWhole none h = tt
nonempty-IsWhole (some []) h = tt
nonempty-IsWhole (some (c ∷ s)) h = h

pub group_text-IsAscii : (g : RouteGroupFilter) → IsAscii (group_text g)
unfolding group_text
group_text-IsAscii (group_id g) = string_of_nat-IsAscii g
group_text-IsAscii no_group = omega arith

pub param-entries_last :
    {A : Type 0} (name : String) (show : A → Text) (o : Option A)
    → param name show o ≡ entries ((name, Option.map show o) ∷ [])
param-entries_last name show none = refl
param-entries_last name show (some a) = refl

pub trimmed_param-entries_last :
    (name : String) (o : Option Text)
    → trimmed_param name o ≡ entries ((name, nonempty (Option.map trim o)) ∷ [])
trimmed_param-entries_last name o =
    sym (append-nil (trimmed_param name o)) ∙ trimmed_param-entries [] name o

pub entries-AreRead :
    (es : List (String × Option Text)) (suffix : Text)
    → suffix ≡ query_suffix (entries es)
    → All EntryIsWhole es
    → read_suffix suffix ≡ some (entries es)
entries-AreRead es suffix same h =
    ap read_suffix same ∙ read_suffix-query_suffix (entries es) (entries-AreWhole es h)
