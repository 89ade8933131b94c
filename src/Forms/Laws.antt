-- ===== src/Forms/Laws.antt =====
-- What the three forms send.
use split_proxy.Base.{ℕ, ◌≡◌, refl, Text, String, Option, none, some}
use split_proxy.Api.{
  ApiCall, UserInput, ProxyInput, GroupInput, create_user, update_user, create_proxy, update_proxy,
  create_group, update_group, Thrown, error, other, Outcome, fulfilled, rejected,
}
use split_proxy.Script.Sends.{Sends, sending}
use split_proxy.Forms.{
  report_failure, saved, send_user, submit_user, send_proxy, submit_proxy, send_group, submit_group,
}

-- The request that a form is for: an update of the record in the address, or else a creation.
abbrev pub save_call : {A : Type 0} → (ℕ → A → ApiCall) → (A → ApiCall) → Option ℕ → A → ApiCall
save_call update create (some id) values = update id values
save_call update create none values = create values

-- The request of a submitted form: one that follows from values that are valid.
abbrev pub IsSave :
    {A : Type 0} → (ℕ → A → ApiCall) → (A → ApiCall) → Option ℕ → Outcome A → ApiCall → Type 0
IsSave {A} update create id validated q =
    (values : A) × ((validated ≡ fulfilled values) × (q ≡ save_call update create id values))

report_failure-Sends :
    {A : Type 0} {P : ApiCall → Type 0} (e : Thrown) → Sends P (report_failure {A = A} e)
unfolding report_failure
report_failure-Sends (error m) = search sending
report_failure-Sends other = search sending

saved-Sends :
    {A : Type 0} {P : ApiCall → Type 0} (key : String) (path : Text) (o : Outcome (Unit {0}))
    → Sends P (saved {A = A} key path o)
unfolding saved
saved-Sends key path (fulfilled _) = search sending
saved-Sends key path (rejected e) = search (sending, report_failure-Sends)

submit_user-Sends :
    (id : Option ℕ) (v : Outcome UserInput)
    → Sends (IsSave update_user create_user id v) (submit_user id v)
unfolding submit_user send_user
submit_user-Sends id (rejected e) = search (sending, report_failure-Sends)
submit_user-Sends (some id) (fulfilled values) =
    let p : IsSave update_user create_user (some id) (fulfilled values) (update_user id values) =
      (values, (refl, refl)) in
    search (sending, saved-Sends, p)
submit_user-Sends none (fulfilled values) =
    let p : IsSave update_user create_user none (fulfilled values) (create_user values) =
      (values, (refl, refl)) in
    search (sending, saved-Sends, p)

submit_proxy-Sends :
    (id : Option ℕ) (v : Outcome ProxyInput)
    → Sends (IsSave update_proxy create_proxy id v) (submit_proxy id v)
unfolding submit_proxy send_proxy
submit_proxy-Sends id (rejected e) = search (sending, report_failure-Sends)
submit_proxy-Sends (some id) (fulfilled values) =
    let p : IsSave update_proxy create_proxy (some id) (fulfilled values) (update_proxy id values) =
      (values, (refl, refl)) in
    search (sending, saved-Sends, p)
submit_proxy-Sends none (fulfilled values) =
    let p : IsSave update_proxy create_proxy none (fulfilled values) (create_proxy values) =
      (values, (refl, refl)) in
    search (sending, saved-Sends, p)

submit_group-Sends :
    (id : Option ℕ) (v : Outcome GroupInput)
    → Sends (IsSave update_group create_group id v) (submit_group id v)
unfolding submit_group send_group
submit_group-Sends id (rejected e) = search (sending, report_failure-Sends)
submit_group-Sends (some id) (fulfilled values) =
    let p : IsSave update_group create_group (some id) (fulfilled values) (update_group id values) =
      (values, (refl, refl)) in
    search (sending, saved-Sends, p)
submit_group-Sends none (fulfilled values) =
    let p : IsSave update_group create_group none (fulfilled values) (create_group values) =
      (values, (refl, refl)) in
    search (sending, saved-Sends, p)

-- A submitted form sends nothing unless its values are valid, and then only the update of the
-- record in the address, or a creation where the address has none. This holds of the three forms.
pub submit-IsSave :
    (id : Option ℕ) (user : Outcome UserInput) (proxy : Outcome ProxyInput)
    (group : Outcome GroupInput)
    → Sends (IsSave update_user create_user id user) (submit_user id user)
      × (Sends (IsSave update_proxy create_proxy id proxy) (submit_proxy id proxy)
          × Sends (IsSave update_group create_group id group) (submit_group id group))
submit-IsSave id user proxy group =
    (submit_user-Sends id user, (submit_proxy-Sends id proxy, submit_group-Sends id group))
