-- ===== src/Script/Keeps.antt =====
-- Invariants of the state that a handler keeps, whatever the server answers and whatever else has
-- run at its awaits.
use split_proxy.Base.{Bool, true, false, Text, List, if◌then◌else◌}
use split_proxy.Api.{ApiCall, Answer, Answers, Outcome}
use split_proxy.Script.Defs.{
  Script, pure, update, show, navigate, confirm, await, await_all, ◌>>=◌, modify, confirm_then,
  Dialog, Level, Message,
}

-- Every update of the script keeps `I`, on every answer.
pub data Keeps {S A : Type 0} (I : S → Type 0) : Script S A → Type 0 where
  keeps_pure : (a : A) → Keeps I (pure a)
  keeps_update :
      {f : S → S} {k : Script S A} → ((s : S) → I s → I (f s)) → Keeps I k → Keeps I (update f k)
  keeps_show : {l : Level} {m : Message} {k : Script S A} → Keeps I k → Keeps I (show l m k)
  keeps_navigate : {p : Text} {r : Bool} {k : Script S A} → Keeps I k → Keeps I (navigate p r k)
  keeps_confirm :
      {d : Dialog} {k : Bool → Script S A} → ((b : Bool) → Keeps I (k b)) → Keeps I (confirm d k)
  keeps_await :
      {q : ApiCall} {k : Outcome (Answer q) → Script S A}
      → ((o : Outcome (Answer q)) → Keeps I (k o))
      → Keeps I (await q k)
  keeps_await_all :
      {qs : List ApiCall} {k : Answers qs → Script S A}
      → ((os : Answers qs) → Keeps I (k os))
      → Keeps I (await_all qs k)

module _ {S : Type 0} {I : S → Type 0} where
  pub Keeps-bind :
      {A B : Type 0} {m : Script S A} {f : A → Script S B}
      → Keeps I m
      → ((a : A) → Keeps I (f a))
      → Keeps I (m >>= f)
  unfolding ◌>>=◌
  Keeps-bind {f} (keeps_pure a) k = k a
  Keeps-bind (keeps_update h hm) k = keeps_update h (Keeps-bind hm k)
  Keeps-bind (keeps_show h) k = keeps_show (Keeps-bind h k)
  Keeps-bind (keeps_navigate h) k = keeps_navigate (Keeps-bind h k)
  Keeps-bind (keeps_confirm h) k = keeps_confirm (λ b. Keeps-bind (h b) k)
  Keeps-bind (keeps_await h) k = keeps_await (λ o. Keeps-bind (h o) k)
  Keeps-bind (keeps_await_all h) k = keeps_await_all (λ os. Keeps-bind (h os) k)

  pub Keeps-if :
      {A : Type 0} (b : Bool) {m n : Script S A}
      → Keeps I m
      → Keeps I n
      → Keeps I (if b then m else n)
  Keeps-if true h k = h
  Keeps-if false h k = k

  -- `modify f`
  pub Keeps-modify : {f : S → S} → ((s : S) → I s → I (f s)) → Keeps I (modify f)
  Keeps-modify h = keeps_update h (keeps_pure tt)

  pub Keeps-confirm_then :
      {d : Dialog} {h : Script S (Unit {0})} → Keeps I h → Keeps I (confirm_then d h)
  Keeps-confirm_then k = keeps_confirm (elim [ true ↦ k | false ↦ keeps_pure tt ])

pub ruleset keeping = (
  keeps_pure, keeps_update, keeps_show, keeps_navigate, keeps_await, keeps_await_all, Keeps-bind,
  Keeps-if, Keeps-confirm_then,
)
