-- ===== src/Script/Sends.antt =====
-- The requests that a handler can send, whatever the server answers and whatever else has run.
use split_proxy.Base.{Bool, true, false, Text, List, All, if◌then◌else◌, [], ◌∷◌, ◌++◌, map}
use split_proxy.Api.{ApiCall, Answer, Answers, Outcome}
use split_proxy.Script.Defs.{
  Script, pure, update, show, navigate, confirm, await, await_all, ◌>>=◌, confirm_then, Dialog,
  Level, Message,
}
use split_proxy.Script.Run.{Surroundings, serve_all, run, Event, sent}

-- Every request of the script satisfies `P`.
pub data Sends {S A : Type 0} (P : ApiCall → Type 0) : Script S A → Type 0 where
  sends_pure : (a : A) → Sends P (pure a)
  sends_update : {f : S → S} {k : Script S A} → Sends P k → Sends P (update f k)
  sends_show : {l : Level} {m : Message} {k : Script S A} → Sends P k → Sends P (show l m k)
  sends_navigate : {p : Text} {r : Bool} {k : Script S A} → Sends P k → Sends P (navigate p r k)
  sends_confirm :
      {d : Dialog} {k : Bool → Script S A} → ((b : Bool) → Sends P (k b)) → Sends P (confirm d k)
  sends_await :
      {q : ApiCall} {k : Outcome (Answer q) → Script S A}
      → P q
      → ((o : Outcome (Answer q)) → Sends P (k o))
      → Sends P (await q k)
  sends_await_all :
      {qs : List ApiCall} {k : Answers qs → Script S A}
      → All P qs
      → ((os : Answers qs) → Sends P (k os))
      → Sends P (await_all qs k)

module _ {S : Type 0} {P : ApiCall → Type 0} where
  pub Sends-bind :
      {A B : Type 0} {m : Script S A} {f : A → Script S B}
      → Sends P m
      → ((a : A) → Sends P (f a))
      → Sends P (m >>= f)
  unfolding ◌>>=◌
  Sends-bind (sends_pure a) k = k a
  Sends-bind (sends_update h) k = sends_update (Sends-bind h k)
  Sends-bind (sends_show h) k = sends_show (Sends-bind h k)
  Sends-bind (sends_navigate h) k = sends_navigate (Sends-bind h k)
  Sends-bind (sends_confirm h) k = sends_confirm (λ b. Sends-bind (h b) k)
  Sends-bind (sends_await p h) k = sends_await p (λ o. Sends-bind (h o) k)
  Sends-bind (sends_await_all p h) k = sends_await_all p (λ os. Sends-bind (h os) k)

  pub Sends-if :
      {A : Type 0} (b : Bool) {m n : Script S A}
      → Sends P m
      → Sends P n
      → Sends P (if b then m else n)
  Sends-if true h k = h
  Sends-if false h k = k

  pub Sends-confirm_then :
      {d : Dialog} {h : Script S (Unit {0})} → Sends P h → Sends P (confirm_then d h)
  Sends-confirm_then k = sends_confirm (elim [ true ↦ k | false ↦ sends_pure tt ])

pub ruleset sending = (
  sends_pure, sends_update, sends_show, sends_navigate, sends_await, Sends-bind, Sends-if,
  Sends-confirm_then,
)

-- What a run did, restricted to its requests.
abbrev pub SentIs : (ApiCall → Type 0) → Event → Type 0
SentIs P (sent q) = P q
SentIs P _ = Unit

All-sent :
    (P : ApiCall → Type 0) (qs : List ApiCall) (es : List Event)
    → All P qs
    → All (SentIs P) es
    → All (SentIs P) (map sent qs ++ es)
All-sent P [] es h k = k
All-sent P (q ∷ qs) es h k = (h.0, All-sent P qs es h.1 k)

module _ {W S A : Type 0} (P : ApiCall → Type 0) (u : Surroundings W) where
  -- The requests of every run satisfy what the script's requests do.
  pub run-Sends : (m : Script S A) (s : S) (w : W) → Sends P m → All (SentIs P) (run u m s w).events
  run-Sends (pure a) s w h = tt
  run-Sends (update f m) s w (sends_update h) = run-Sends m (f s) w h
  run-Sends (show l t m) s w (sends_show h) = (tt, run-Sends m s w h)
  run-Sends (navigate p r m) s w (sends_navigate h) = (tt, run-Sends m s w h)
  run-Sends (confirm d m) s w (sends_confirm h) =
      (tt, run-Sends (m (u.decide d w).0) s (u.decide d w).1 (h (u.decide d w).0))
  run-Sends (await q m) s w (sends_await p h) =
      (p, run-Sends (m (u.serve q w).0) s (u.serve q w).1 (h (u.serve q w).0))
  run-Sends (await_all qs m) s w (sends_await_all p h) =
      All-sent P qs _ p
        (run-Sends (m (serve_all u qs w).0) s (serve_all u qs w).1 (h (serve_all u qs w).0))
