-- ===== src/Api/Building.antt =====
-- What the API functions share: query parameters, paths and request options.
use mathlib.Core.Option
use split_proxy.Base.{
  ℕ, Text, String, Option, none, some, List, [], ◌∷◌, ◌++◌, length, nat_beq, if◌then◌else◌,
}
use split_proxy.Text.{codes, trim, string_of_nat, encode_uri_component, params_to_string}
use split_proxy.Api.Calls.{RouteGroupFilter, group_id, no_group}
use split_proxy.Api.Client.{Method, Json, number, null, RequestInit}

-- `if (x !== undefined) params.set(name, String(x));`
abbrev pub param : {A : Type 0} → String → (A → Text) → Option A → List (Text × Text)
param name show none = []
param name show (some a) = (codes name, show a) ∷ []

-- `if (x?.trim()) params.set(name, x.trim());`
abbrev pub trimmed_param : String → Option Text → List (Text × Text)
trimmed_param name none = []
trimmed_param name (some s) = if nat_beq (length (trim s)) 0 then [] else (codes name, trim s) ∷ []

-- `String(group)`
unfoldable pub group_text : RouteGroupFilter → Text
group_text (group_id g) = string_of_nat g
group_text no_group = codes "none"

-- `query ? `?${query}` : ""`
unfoldable pub query_suffix : List (Text × Text) → Text
query_suffix params =
    let query = params_to_string params in if nat_beq (length query) 0 then [] else b'?' ∷ query

abbrev pub plain_call : Method → List (String × Json) → RequestInit
plain_call m b = record { method = m; body = some b; headers = [] }

abbrev pub bare_call : Method → RequestInit
bare_call m = record { method = m; body = none; headers = [] }

-- The arguments of `apiFetch`; `none` stands for the URIError of `encodeURIComponent`.
abbrev pub Endpoint : Type 0
Endpoint = Option (Text × RequestInit)

-- `apiFetch(`${path}${encodeURIComponent(s)}`, init)`
unfoldable pub under : String → Text → RequestInit → Endpoint
under path s init = Option.map (λ e. (codes path ++ e, init)) (encode_uri_component s)

-- `apiFetch(`${path}${id}`, init)`
unfoldable pub numbered : String → ℕ → RequestInit → Endpoint
numbered path id init = some (codes path ++ string_of_nat id, init)

-- `apiFetch(`${path}${suffix}`, init)`
unfoldable pub at_path : String → Text → RequestInit → Endpoint
at_path path suffix init = some (codes path ++ suffix, init)

-- `group: number | null`
abbrev pub group_json : Option ℕ → Json
group_json none = null
group_json (some g) = number g
