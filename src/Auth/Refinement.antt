-- ===== src/Auth/Refinement.antt =====
-- The panel with its storage behaves as the session alone.
use mathlib.Core.Path.{ap₂}
use split_proxy.Base.{
  ◌≡◌, ◌⊎◌, inl, inr, refl, ◌∙◌, ap, Text, Option, none, some, List, [], ◌∷◌, arith, nat_beq,
  Bool-cases,
}
use split_proxy.Browser.{Stored, plain, json_user, get_item, Browser}
use split_proxy.Text.{codes}
use split_proxy.Api.AuthStorage.{remove_token}
use split_proxy.Api.Client.{
  RequestInit, prepare, stored_text, Reply, responded, no_response, api_fetch, handle_response,
}
use split_proxy.Auth.Requests.{removed_other-session}
use split_proxy.Api.{Thrown, Outcome, fulfilled, rejected}
use split_proxy.Auth.{
  AuthServer, Auth, Session, token_key, restored_token, restore, accepted, login, with_token,
  with_profile, signed_in, logout,
}
use split_proxy.Auth.Laws.{Coherent, session-Coherent, logout-Coherent}
use split_proxy.Auth.Machine.{
  Event, log_in, log_out, reload, call, open_path, step, run, spec_step, spec_run, spec_login,
  spec_profile, spec_request, arrive, logged, requested, no_storage,
}

module _ (server : AuthServer) (bad : Thrown) (email : Text) (a : Auth) where
  abbrev view : Outcome (Unit {0}) × Auth → Outcome (Unit {0}) × Session
  view (r, b) = (r, b.session)

  with_profile-spec :
      (token : Text) (o : Outcome Text)
      → view (with_profile email token o a) ≡ spec_profile email token a.session o
  unfolding with_profile signed_in
  with_profile-spec token (rejected e) = refl
  with_profile-spec token (fulfilled username) = refl

  with_token-spec :
      (o : Outcome Text)
      → view (with_token server bad email o a) ≡ spec_login server bad email a.session o
  unfolding with_token
  with_token-spec (rejected e) = refl
  with_token-spec (fulfilled token) = with_profile-spec token _

stored_text-restored_token : (o : Option Stored) → stored_text o ≡ restored_token o
unfolding stored_text restored_token
stored_text-restored_token none = refl
stored_text-restored_token (some (plain t)) = refl
stored_text-restored_token (some (json_user u)) = refl

prepare-spec :
    (url : Text) (options : RequestInit) (a : Auth)
    → Coherent a
    → prepare url options a.storage ≡ spec_request url options a.session.token
unfolding prepare restore
prepare-spec url options a h =
    ap (λ (token : Option Text). spec_request url options token)
      (stored_text-restored_token (get_item token_key a.storage) ∙ ap (λ (s : Session). s.token) h)

module _ {A : Type 0} (undefined : A) where
  -- The outcome of a call does not depend on the browser.
  api_fetch-outcome :
      (reply : Reply A) (b c : Browser)
      → (api_fetch undefined reply b).0 ≡ (api_fetch undefined reply c).0
  unfolding api_fetch handle_response
  api_fetch-outcome (no_response m) b c = refl
  api_fetch-outcome (responded r) b c = ground arith

  -- A call leaves the browser alone, or takes out another token and sets an address.
  api_fetch-browser :
      (reply : Reply A) (b : Browser)
      → ((api_fetch undefined reply b).1 ≡ b)
        ⊎ ((api_fetch undefined reply b).1
            ≡ record { storage = remove_token b.storage; location = some (codes "/login") })
  unfolding api_fetch handle_response
  api_fetch-browser (no_response m) b = inl refl
  api_fetch-browser (responded r) b = elim (Bool-cases (nat_beq r.status 401)) [
    | inl unauthorized ↦ inr (ground arith)
    | inr authorized ↦ inl (ground arith)
  ]

  abbrev Arrives : Session → Browser → Type 0
  Arrives s b = (arrive b s ≡ s) × (restore b.storage ≡ arrive b s)

  api_fetch-Arrives :
      (reply : Reply A) (url : Text) (options : RequestInit) (a : Auth)
      → Coherent a
      → Arrives a.session
          (api_fetch undefined reply (record { storage = a.storage; location = none })).1
  api_fetch-Arrives reply url options a h =
      let b : Browser = record { storage = a.storage; location = none } in
      elim (api_fetch-browser reply b) [
        | inl same ↦ rw same (refl, h)
        | inr left ↦
            rw left (let e = (removed_other-session a.storage url options).0 in (e ∙ h, refl))
      ]

-- The same is seen, the session is the same, and a reload would restore it.
abbrev pub Matches : {B : Type 0} → B × Auth → B × Session → Type 0
Matches p q = (p.0 ≡ q.0) × ((p.1.session ≡ q.1) × Coherent p.1)

module _ {A : Type 0} (undefined : A) (bad : Thrown) where
  step_refines :
      (e : Event A) (a : Auth)
      → Coherent a
      → Matches (step undefined bad e a) (spec_step undefined bad e a.session)
  unfolding step spec_step login
  step_refines (log_in server email password) a h =
      let same =
        with_token-spec server bad email a (accepted bad (server.get_token email password)) in
      (
        ap (λ (r : Outcome (Unit {0}) × Session). logged r.0) same,
        (
          ap (λ (r : Outcome (Unit {0}) × Session). r.1) same,
          (session-Coherent server bad email password a h).0,
        ),
      )
  step_refines log_out a h = (refl, (unfold logout in refl, logout-Coherent a))
  step_refines reload a h = (refl, (h, refl))
  step_refines (call url options reply) a h = (
    ap₂ requested (prepare-spec url options a h) (api_fetch-outcome undefined reply _ no_storage),
    api_fetch-Arrives undefined reply url options a h,
  )
  step_refines (open_path path) a h = (refl, (refl, h))

  -- Where a reload would restore the session, no sequence of logins, logouts, reloads, calls of the
  -- API and visits of protected paths tells the panel from the session alone, which is the token
  -- and the user of the last login that succeeded, or none after a logout: the outcomes, the
  -- requests, the pages and the final session are the same, and a reload would still restore it.
  pub run_refines :
      (es : List (Event A)) (a : Auth)
      → Coherent a
      → Matches (run undefined bad es a) (spec_run undefined bad es a.session)
  unfolding run spec_run
  run_refines [] a h = (refl, (refl, h))
  run_refines (e ∷ es) a h =
      let (same_seen, (same_session, kept)) = step_refines e a h in
      let rest = run_refines es (step undefined bad e a).1 kept in
      rw (← same_session) (ap₂ ◌∷◌ same_seen rest.0, rest.1)
