-- ===== src/Tests/Session.antt =====
-- The session, the client and the forms at concrete inputs.
use split_proxy.Base.{ℕ, ◌≡◌, ◌↔◌, refl, true, false, [], ◌∷◌, none, some, text_beq, if◌then◌else◌}
use split_proxy.Browser.{Browser, plain, get_item}
use split_proxy.Text.{codes, code_points, utf8, bytes, encode_bytes, encode_uri_component}
use split_proxy.Script.Sends.{Sends}
use split_proxy.Api.{
  other, error, fulfilled, rejected, UserInput, ProxyInput, GroupInput, create_user, update_user,
  create_proxy, update_proxy, create_group, update_group,
}
use split_proxy.Api.Client.{Response, handle_response, number, patch, RequestInit, get, prepare}
use split_proxy.Api.Responses.{Unnamed, handle_response-silent}
use split_proxy.Api.Building.{under, plain_call}
use split_proxy.Api.RoutingApi
use split_proxy.Auth.{Auth, AuthServer, answered, restore, restored_token, restored_user, login}
use split_proxy.Auth.Laws.{Coherent, Grants, login_iff}
use split_proxy.Forms.{submit_user, submit_proxy, submit_group}
use split_proxy.Forms.Laws.{IsSave, submit-IsSave}
use split_proxy.Shell.{
  Route, login_page, users_page, catch_all, Router, MatchesStatic, visit, handle_logout,
}
use split_proxy.Shell.Laws.{Ends, visit-Ends, handle_logout-visit}
use split_proxy.Auth.Requests.{unauthorized-session}

-- It gives the token `t` to everyone and the profile `ann` for it.
abbrev pub server : AuthServer
server = record {
  get_token = λ email password. answered true (fulfilled (codes "t"));
  current_profile = λ header. answered true (fulfilled (codes "ann"));
}

abbrev closed_server : AuthServer
closed_server = record server { get_token = λ email password. answered false (rejected other) }

abbrev pub signed_out : Auth
signed_out = record { storage = []; session = record { token = none; user = none } }

pub signed_out-Coherent : Coherent signed_out
unfolding restore restored_token restored_user get_item
signed_out-Coherent = refl

login_iff_example :
    ((login server other (codes "ann") (codes "pw") signed_out).0 ≡ fulfilled tt)
    ↔ Grants server (codes "ann") (codes "pw")
login_iff_example = login_iff server other (codes "ann") (codes "pw") signed_out

abbrev browser : Browser
browser = record { storage = ("admin_access_token", plain (codes "t")) ∷ []; location = none }

abbrev response : ℕ → Response ℕ
response status = record { status = status; body_text = codes "no"; json = fulfilled 7 }

abbrev pub no_options : RequestInit
no_options = record { method = get; body = none; headers = [] }

handle_response-silent_example :
    ((handle_response 0 (response 500) browser).0 ≡ rejected (error [])) ↔ Unnamed 500
handle_response-silent_example = handle_response-silent 0 (response 500) browser 7 refl (λ e. cc)

unauthorized-session_example :
    let b = (handle_response 0 (response 401) browser).1 in
    (b.location ≡ some (codes "/login"))
    × ((restore b.storage ≡ restore browser.storage)
        × (prepare (codes "/worker") no_options b.storage
            ≡ prepare (codes "/worker") no_options browser.storage))
unauthorized-session_example =
    unauthorized-session 0 (response 401) browser (codes "/worker") no_options refl

pub a_route-Endpoint :
    RoutingApi.update_domain (codes "a/b") 1
    ≡ some (codes "/routing/domains/a%2Fb", plain_call patch (("worker_group", number 1) ∷ []))
unfolding RoutingApi.update_domain under encode_uri_component encode_bytes bytes utf8 code_points
a_route-Endpoint = refl

abbrev user_input : UserInput
user_input = record { username = codes "ann"; password = codes "long enough" }

abbrev proxy_input : ProxyInput
proxy_input = record { username = codes "p"; password = codes "q" }

abbrev group_input : GroupInput
group_input = record { group_name = codes "g" }

submit-IsSave_example :
    Sends
      (IsSave update_user create_user (some 3) (fulfilled user_input))
      (submit_user (some 3) (fulfilled user_input))
    × (Sends
          (IsSave update_proxy create_proxy (some 3) (fulfilled proxy_input))
          (submit_proxy (some 3) (fulfilled proxy_input))
        × Sends
            (IsSave update_group create_group (some 3) (fulfilled group_input))
            (submit_group (some 3) (fulfilled group_input)))
submit-IsSave_example =
    submit-IsSave (some 3) (fulfilled user_input) (fulfilled proxy_input) (fulfilled group_input)

-- A router of the two static paths.
abbrev router : Router
router path =
    if text_beq path (codes "/login")
    then login_page
    else if text_beq path (codes "/users")
    then users_page
    else catch_all

router-MatchesStatic : MatchesStatic router
unfolding text_beq
router-MatchesStatic = record { login_path = refl; users_path = refl }

visit-Ends_example :
    (r : Route) × ((visit router signed_out.session 3 (codes "/admin/users") ≡ some r)
      × Ends signed_out.session r)
visit-Ends_example =
    visit-Ends router router-MatchesStatic signed_out.session (codes "/admin/users")

handle_logout-visit_example :
    (visit router (handle_logout signed_out).0.session 3 (codes "/users") ≡ some login_page)
    × (visit router (restore (handle_logout signed_out).0.storage) 3 (codes "/users")
        ≡ some login_page)
handle_logout-visit_example =
    handle_logout-visit router signed_out (codes "/users") router-MatchesStatic
