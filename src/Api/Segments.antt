-- ===== src/Api/Segments.antt =====
-- The last segment of the paths that are built with `encodeURIComponent`.
use mathlib.Core.Option
use mathlib.Core.Option.{some_inj}
use split_proxy.Base.{
  ℕ, ◌/◌, ◌%◌, ◌≡◌, ◌⊎◌, refl, sym, ap, subst, false, Text, String, Option, none, some, List, [],
  ◌∷◌, ◌++◌, any, arith, nat_beq, nat_beq_iff, Bool-cases, inl, inr,
}
use split_proxy.Text.{
  codes, includes, percent, hex, uri_safe, encode_bytes, bytes, encode_uri_component, code_points,
  is_surrogate,
}
use split_proxy.Text.Laws.{Free, Free-append}
use split_proxy.Api.Client.{RequestInit}
use split_proxy.Api.Building.{under, Endpoint}
use split_proxy.Api.RoutingApi

-- A code unit that ends a segment of a path: `/`, `?` and `#`.
abbrev pub Delimiter : ℕ → Type 0
Delimiter x = (x ≡ b'/') ⊎ ((x ≡ b'?') ⊎ (x ≡ b'#'))

hex-Delimiter : (x d : ℕ) → Delimiter x → nat_beq (hex d) x ≡ false
hex-Delimiter x d h = ground arith

uri_safe-Delimiter : (x : ℕ) → Delimiter x → uri_safe x ≡ false
uri_safe-Delimiter x (inl e) = rw e refl
uri_safe-Delimiter x (inr (inl e)) = rw e refl
uri_safe-Delimiter x (inr (inr e)) = rw e refl

percent-Free : (x b : ℕ) → Delimiter x → Free x (percent uri_safe b)
unfolding includes
percent-Free x b h = elim (Bool-cases (uri_safe b)) [
  | inl safe ↦ elim (Bool-cases (nat_beq b x)) [
    | inl same ↦ cc (ap uri_safe ((nat_beq_iff b x).0 same), uri_safe-Delimiter x h, safe)
    | inr differ ↦ rw (safe, differ) refl
  ]
  | inr coded ↦ rw (coded, hex-Delimiter x (b / 16) h, hex-Delimiter x (b % 16) h) (ground arith)
]

encode_bytes-Free : (x : ℕ) (bs : List ℕ) → Delimiter x → Free x (encode_bytes bs)
unfolding encode_bytes
encode_bytes-Free x [] h = unfold includes in refl
encode_bytes-Free x (b ∷ bs) h =
    Free-append x (percent uri_safe b) (encode_bytes bs) (percent-Free x b h)
      (encode_bytes-Free x bs h)

abbrev pub IsOneSegment : Text → Type 0
IsOneSegment s = Free b'/' s × (Free b'?' s × Free b'#' s)

-- The URL of an endpoint is a path and one more segment.
abbrev pub IsSegment : String → Text → Type 0
IsSegment path url = (segment : Text) × ((url ≡ codes path ++ segment) × IsOneSegment segment)

encode_uri_component-Free :
    (s e : Text) → encode_uri_component s ≡ some e → (x : ℕ) → Delimiter x → Free x e
unfolding encode_uri_component
encode_uri_component-Free s e h x d =
    let bs = bytes (code_points s) in
    elim (Bool-cases (any is_surrogate (code_points s))) [
      | inl lone ↦ cc (rw lone at h)
      | inr whole ↦
          let same : encode_bytes bs ≡ e = some_inj.0 (rw whole at h) in
          subst (Free x) same (encode_bytes-Free x bs d)
    ]

pub encode-IsOneSegment : (s e : Text) → encode_uri_component s ≡ some e → IsOneSegment e
encode-IsOneSegment s e h =
    let free = encode_uri_component-Free s e h in
    (free _ (inl refl), (free _ (inr (inl refl)), free _ (inr (inr refl))))

map-IsSegment :
    (path : String) (o : Option Text) (url : Text) (init r : RequestInit)
    → ((e : Text) → o ≡ some e → IsOneSegment e)
    → Option.map {B = Text × RequestInit} (λ e. (codes path ++ e, init)) o ≡ some (url, r)
    → IsSegment path url
map-IsSegment path none url init r h k = cc k
map-IsSegment path (some e) url init r h k = (e, (ap (λ p. p.0) (some_inj.0 (sym k)), h e refl))

under-IsSegment :
    (path : String) (s url : Text) (init r : RequestInit)
    → under path s init ≡ some (url, r)
    → IsSegment path url
unfolding under
under-IsSegment path s url init r h =
    map-IsSegment path (encode_uri_component s) url init r (encode-IsOneSegment s) h

-- The functions of routingApi.tsx that name one route, with the path that they put before it.
pub data NamesRoute (route : Text) (group : ℕ) : String → Endpoint → Type 0 where
  by_update_domain :
      NamesRoute route group "/routing/domains/" (RoutingApi.update_domain route group)
  by_delete_domain : NamesRoute route group "/routing/domains/" (RoutingApi.delete_domain route)
  by_update_cidr : NamesRoute route group "/routing/cidr/" (RoutingApi.update_cidr route group)
  by_delete_cidr : NamesRoute route group "/routing/cidr/" (RoutingApi.delete_cidr route)

-- Where a change or a deletion of a route builds a URL, the pattern or the range is its last
-- segment: it brings in no slash, no question mark and no number sign.
pub route-IsSegment :
    (route : Text) (group : ℕ) (path : String) (e : Endpoint) (url : Text) (r : RequestInit)
    → NamesRoute route group path e
    → e ≡ some (url, r)
    → IsSegment path url
unfolding RoutingApi.update_domain RoutingApi.delete_domain RoutingApi.update_cidr
    RoutingApi.delete_cidr
route-IsSegment route group path e url r by_update_domain h = under-IsSegment path route url _ r h
route-IsSegment route group path e url r by_delete_domain h = under-IsSegment path route url _ r h
route-IsSegment route group path e url r by_update_cidr h = under-IsSegment path route url _ r h
route-IsSegment route group path e url r by_delete_cidr h = under-IsSegment path route url _ r h
