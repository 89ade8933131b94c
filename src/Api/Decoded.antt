-- ===== src/Api/Decoded.antt =====
-- What a server decodes from the last segment of a path that is built with `encodeURIComponent`.
use mathlib.Core.Option
use mathlib.Core.Option.{some_inj}
use split_proxy.Base.{ℕ, ◌≡◌, refl, sym, ap, Text, String, Option, none, some, ◌++◌, All}
use split_proxy.Text.{codes, encode_uri_component}
use split_proxy.Text.Decoding.{decode_uri_component}
use split_proxy.Text.Utf8.{IsUnit}
use split_proxy.Text.RoundTrip.{decode-encode_uri_component}
use split_proxy.Api.Client.{RequestInit}
use split_proxy.Api.Building.{under, Endpoint}
use split_proxy.Api.RoutingApi
use split_proxy.Api.Segments.{
  NamesRoute, by_update_domain, by_delete_domain, by_update_cidr, by_delete_cidr, IsOneSegment,
  encode-IsOneSegment, IsOneSegment, encode-IsOneSegment,
}

-- The URL is the path and one segment, without a slash, a question mark and a number sign, that
-- decodes to the text.
abbrev pub EndsIn : Text → String → Text → Type 0
EndsIn s path url =
    (segment : Text) × ((url ≡ codes path ++ segment)
      × (IsOneSegment segment × (decode_uri_component segment ≡ some s)))

map-EndsIn :
    (s : Text) (path : String) (o : Option Text) (url : Text) (init r : RequestInit)
    → ((e : Text) → o ≡ some e → IsOneSegment e × (decode_uri_component e ≡ some s))
    → Option.map {B = Text × RequestInit} (λ e. (codes path ++ e, init)) o ≡ some (url, r)
    → EndsIn s path url
map-EndsIn s path none url init r h k = cc k
map-EndsIn s path (some e) url init r h k = (e, (ap (λ p. p.0) (some_inj.0 (sym k)), h e refl))

under-EndsIn :
    (path : String) (s url : Text) (init r : RequestInit)
    → All IsUnit s
    → under path s init ≡ some (url, r)
    → EndsIn s path url
unfolding under
under-EndsIn path s url init r units h =
    map-EndsIn s path (encode_uri_component s) url init r
      (λ e o. (encode-IsOneSegment s e o, decode-encode_uri_component s e units o)) h

-- Where a change or a deletion of a route builds a URL, a server that decodes its last segment
-- reads the pattern or the range, which bring in no slash, no question mark and no number sign.
pub route-EndsIn :
    (route : Text) (group : ℕ) (path : String) (e : Endpoint) (url : Text) (r : RequestInit)
    → All IsUnit route
    → NamesRoute route group path e
    → e ≡ some (url, r)
    → EndsIn route path url
unfolding RoutingApi.update_domain RoutingApi.delete_domain RoutingApi.update_cidr
    RoutingApi.delete_cidr
route-EndsIn route group path e url r u by_update_domain h = under-EndsIn path route url _ r u h
route-EndsIn route group path e url r u by_delete_domain h = under-EndsIn path route url _ r u h
route-EndsIn route group path e url r u by_update_cidr h = under-EndsIn path route url _ r u h
route-EndsIn route group path e url r u by_delete_cidr h = under-EndsIn path route url _ r u h
