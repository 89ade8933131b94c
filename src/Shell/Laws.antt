-- ===== src/Shell/Laws.antt =====
-- Where the redirects of the panel end, for visitors who are signed in and who are not.
use split_proxy.Base.{
  ℕ, suc, ◌≡◌, ◌⊎◌, inl, inr, refl, ◌∙◌, ap, true, false, Text, Option, some, Bool-cases,
}
use split_proxy.Text.{codes}
use split_proxy.Auth.{Session, Auth, is_authenticated, is_present, protected_route, logout, restore}
use split_proxy.Auth.Laws.{logout-Coherent}
use split_proxy.Shell.{
  Route, login_page, users_page, catch_all, Router, MatchesStatic, guarded, render, after, visit,
  handle_logout,
}

-- Where a visit ends: at the login page, or at a page of a visitor who is signed in.
abbrev pub Ends : Session → Route → Type 0
Ends s r = (r ≡ login_page) ⊎ (is_authenticated s ≡ true)

module _ (router : Router) (m : MatchesStatic router) (s : Session) where
  visit-login : (n : ℕ) → visit router s (suc n) (codes "/login") ≡ some login_page
  unfolding visit render after
  visit-login n = rw m.login_path refl

  abbrev EndsFrom : Option Route → Type 0
  EndsFrom o = (r : Route) × ((o ≡ some r) × Ends s r)

  guarded-Ends :
      (n : ℕ) (path : Text) (r : Route)
      → EndsFrom (after (guarded r (protected_route s path)) (visit router s (suc n)))
  unfolding guarded protected_route after
  guarded-Ends n path r = elim (Bool-cases (is_authenticated s)) [
    | inl signed_in ↦ rw signed_in (r, (refl, inr refl))
    | inr signed_out ↦ rw signed_out (login_page, (visit-login n, inl refl))
  ]

  visit_users-Ends : (n : ℕ) → EndsFrom (visit router s (suc (suc n)) (codes "/users"))
  unfolding visit render after
  visit_users-Ends n = rw m.users_path (guarded-Ends n (codes "/users") users_page)

  render-Ends :
      (n : ℕ) (path : Text) (r : Route)
      → EndsFrom (after (render s path r) (visit router s (suc (suc n))))
  unfolding render after
  render-Ends n path login_page = (login_page, (refl, inl refl))
  render-Ends n path catch_all = visit_users-Ends n
  render-Ends n path r = guarded-Ends (suc n) path r

  -- With a router that matches the two static paths, at most two redirects lead from every path
  -- to a page, and unless it is the login page the visitor is signed in.
  pub visit-Ends : (path : Text) → EndsFrom (visit router s 3 path)
  unfolding visit after
  visit-Ends path = render-Ends 0 path (router path)

Ends-login :
    (s : Session) (o : Option Route)
    → is_authenticated s ≡ false
    → (r : Route) × ((o ≡ some r) × Ends s r)
    → o ≡ some login_page
Ends-login s o out (r, (e, inl login)) = e ∙ ap some login
Ends-login s o out (r, (e, inr signed_in)) = cc (out, signed_in)

-- With a router that matches the two static paths, after the logout button every path shows the
-- login page, in the running panel and in one that restores its session from the storage.
pub handle_logout-visit :
    (router : Router) (a : Auth) (path : Text)
    → MatchesStatic router
    → (visit router (handle_logout a).0.session 3 path ≡ some login_page)
      × (visit router (restore (handle_logout a).0.storage) 3 path ≡ some login_page)
unfolding handle_logout logout is_authenticated is_present
handle_logout-visit router a path m =
    let shown =
      Ends-login (logout a).session _ refl (visit-Ends router m (logout a).session path) in
    (shown, rw (logout-Coherent a) shown)
