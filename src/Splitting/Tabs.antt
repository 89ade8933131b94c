-- ===== src/Splitting/Tabs.antt =====
-- The tabs of `SplittingPage` and the query that keeps the open one.
use split_proxy.Base.{
  Bool, not, Text, text_beq, String, Option, none, some, List, [], ◌∷◌, filter, if◌then◌else◌,
}
use split_proxy.Text.{codes}
pub mod Laws

abbrev pub Params : Type 0
Params = List (Text × Text)

-- `searchParams.get(name)`
unfoldable pub get_value : Text → Params → Option Text
get_value name [] = none
get_value name ((k, v) ∷ ps) = if text_beq k name then some v else get_value name ps

unfoldable pub without_name : Text → Params → Params
without_name name ps = filter (λ p. not (text_beq p.0 name)) ps

-- `params.set(name, value)`: the first of its values is replaced and the others go.
unfoldable pub set_value : Text → Text → Params → Params
set_value name value [] = (name, value) ∷ []
set_value name value ((k, v) ∷ ps) =
    if text_beq k name
    then (name, value) ∷ without_name name ps
    else (k, v) ∷ set_value name value ps

abbrev pub tab_name : Text
tab_name = codes "tab"

abbrev or_default : Option Text → Text
or_default none = codes "default"
or_default (some key) = key

-- `searchParams.get("tab") ?? "default"`
unfoldable pub active_tab : Params → Text
active_tab ps = or_default (get_value tab_name ps)

-- A tab: its key and the key of its label.
pub record Tab : Type 0 where
  pub key : Text
  pub label : String

unfoldable pub tabs : List Tab
tabs =
    record { key = codes "default"; label = "routingPage.defaultRoute" }
    ∷ record { key = codes "domains"; label = "routingPage.domains" }
    ∷ record { key = codes "cidrs"; label = "routingPage.cidrs" }
    ∷ []

-- `onChange` of the tabs.
unfoldable pub change_tab : Text → Params → Params
change_tab key ps = set_value tab_name key ps
