-- ===== src/Script/Compose.antt =====
-- How a handler's parts compose in a run, and what a run keeps.
use mathlib.Core.List.{append_assoc}
use split_proxy.Base.{◌≡◌, refl, ap, Bool, not, List, [], ◌∷◌, ◌++◌, map, select, filter}
use split_proxy.Api.{ApiCall}
use split_proxy.Script.Defs.{
  Script, pure, update, show, navigate, confirm, await, await_all, ◌>>=◌, is_fulfilled, statuses,
}
use split_proxy.Script.Run.{
  Surroundings, serve_all, Finished, emit, run, Event, sent, shown, went, asked,
}
use split_proxy.Script.Keeps.{
  Keeps, keeps_update, keeps_show, keeps_navigate, keeps_confirm, keeps_await, keeps_await_all,
}

emit-emit :
    {W S A : Type 0} (xs ys : List Event) (r : Finished W S A)
    → emit xs (emit ys r) ≡ emit (xs ++ ys) r
emit-emit xs ys r = rw (append_assoc xs ys r.events)

module _ {W S A B : Type 0} (u : Surroundings W) where
  -- The run of a sequence: the second part goes on where the first one ended.
  pub run-bind :
      (m : Script S A) (f : A → Script S B) (s : S) (w : W)
      → run u (m >>= f) s w
        ≡ emit
            (run u m s w).events
            (run u (f (run u m s w).value) (run u m s w).state (run u m s w).world)
  unfolding ◌>>=◌
  run-bind (pure a) f s w = refl
  run-bind (update g m) f s w = run-bind m f (g s) w
  run-bind (show l t m) f s w = ap (emit (shown l t ∷ [])) (run-bind m f s w)
  run-bind (navigate p r m) f s w = ap (emit (went p r ∷ [])) (run-bind m f s w)
  run-bind (confirm d m) f s w =
      ap (emit (asked d ∷ [])) (run-bind (m (u.decide d w).0) f s (u.decide d w).1)
  run-bind (await q m) f s w =
      ap (emit (sent q ∷ [])) (run-bind (m (u.serve q w).0) f s (u.serve q w).1)
  run-bind (await_all qs m) f s w =
      rw (run-bind (m (serve_all u qs w).0) f s (serve_all u qs w).1) (emit-emit (map sent qs) _ _)

module _ {W S A : Type 0} (u : Surroundings W) {I : S → Type 0} where
  -- What every update keeps holds at the end of a run.
  pub run-Keeps : (m : Script S A) (s : S) (w : W) → Keeps I m → I s → I (run u m s w).state
  run-Keeps (pure a) s w k i = i
  run-Keeps (update f m) s w (keeps_update e k) i = run-Keeps m (f s) w k (e s i)
  run-Keeps (show l t m) s w (keeps_show k) i = run-Keeps m s w k i
  run-Keeps (navigate p r m) s w (keeps_navigate k) i = run-Keeps m s w k i
  run-Keeps (confirm d m) s w (keeps_confirm k) i =
      run-Keeps (m (u.decide d w).0) s (u.decide d w).1 (k (u.decide d w).0) i
  run-Keeps (await q m) s w (keeps_await k) i =
      run-Keeps (m (u.serve q w).0) s (u.serve q w).1 (k (u.serve q w).0) i
  run-Keeps (await_all qs m) s w (keeps_await_all k) i =
      run-Keeps (m (serve_all u qs w).0) s (serve_all u qs w).1 (k (serve_all u qs w).0) i

-- A server that accepts the call for `a` exactly when `ok a`.
abbrev pub Accepts : {W A : Type 0} → Surroundings W → (A → ApiCall) → (A → Bool) → Type 0
Accepts {W} {A} u f ok = (a : A) (w : W) → is_fulfilled (u.serve (f a) w).0 ≡ ok a

module _ {W A : Type 0} (u : Surroundings W) (f : A → ApiCall) (ok : A → Bool) where
  pub statuses-serve_all :
      (xs : List A) (w : W)
      → Accepts u f ok
      → statuses (map f xs) (serve_all u (map f xs) w).0 ≡ map ok xs
  statuses-serve_all [] w h = refl
  statuses-serve_all (x ∷ xs) w h = rw (h x w, statuses-serve_all xs (u.serve (f x) w).1 h)

module _ {A : Type 0} (ok : A → Bool) where
  pub select-map : (xs : List A) → select (map ok xs) xs ≡ filter ok xs
  select-map [] = refl
  select-map (x ∷ xs) = rw (select-map xs)

  pub select-map-not : (xs : List A) → select (map not (map ok xs)) xs ≡ filter (λ x. not (ok x)) xs
  select-map-not [] = refl
  select-map-not (x ∷ xs) = rw (select-map-not xs)
