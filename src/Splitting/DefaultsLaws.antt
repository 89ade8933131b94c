-- ===== src/Splitting/DefaultsLaws.antt =====
-- The default route behind a load and a change.
use split_proxy.Base.{ℕ, ◌≡◌, refl, false, Option, some}
use split_proxy.Api.{
  DefaultRoute, get_default_route, update_default_route, Outcome, fulfilled, rejected,
}
use split_proxy.Script.{◌>>=◌}
use split_proxy.Script.Run.{Surroundings, run}
use split_proxy.Script.Compose.{run-bind}
use split_proxy.Splitting.Defaults.{
  DefaultsTab, default_route_loaded, load_default_route, default_route_changed,
  change_default_route,
}

-- The route of the server's answer, or the old one where the request was rejected.
abbrev pub answered_route : Option ℕ → Outcome DefaultRoute → Option ℕ
answered_route old (fulfilled r) = some r.worker_group
answered_route old (rejected e) = old

module _ {W : Type 0} (u : Surroundings W) where
  changed-route :
      (o : Outcome DefaultRoute) (s : DefaultsTab) (w : W)
      → (run u (default_route_changed o) s w).state
        ≡ record s { default_route = answered_route s.default_route o }
  unfolding default_route_changed ◌>>=◌
  changed-route (fulfilled r) s w = refl
  changed-route (rejected e) s w = refl

  loaded-route :
      (o : Outcome DefaultRoute) (s : DefaultsTab) (w : W)
      → (run u (default_route_loaded o) s w).state
        ≡ record s { default_route = answered_route s.default_route o }
  unfolding default_route_loaded
  loaded-route (fulfilled r) s w = refl
  loaded-route (rejected e) s w = refl

  -- A change of the default route and a load of it end with the route of the server's own answer,
  -- or with the old one where the request was rejected, and with a select that is not loading.
  pub default_route-answered :
      (worker_group : ℕ) (s : DefaultsTab) (w : W)
      → ((run u (change_default_route worker_group) s w).state ≡ record s {
        default_route =
            answered_route s.default_route (u.serve (update_default_route worker_group) w).0;
        updating_default_route = false;
      })
        × ((run u load_default_route s w).state ≡ record s {
          default_route = answered_route s.default_route (u.serve get_default_route w).0;
          updating_default_route = false;
        })
  unfolding change_default_route load_default_route
  default_route-answered worker_group s w =
      simp (run-bind, changed-route, loaded-route) (refl, refl)
