-- ===== src/Script/Defs.antt =====
-- Handlers as data, and the messages that they show.
use split_proxy.Base.{ℕ, Bool, true, false, Text, List, [], ◌∷◌, String, Option}
use split_proxy.Api.{ApiCall, Answer, Answers, Outcome, fulfilled, rejected, Thrown, error, other}

-- The text of a message: a thrown error's own message, or a key of the translation table with the
-- names and the numbers of its options.
pub data Message : Type 0 where
  own : Text → Message
  translated : String → List (String × ℕ) → Message

-- `message.success`, `message.warning`, `message.error`
pub data Level : Type 0 where
  success warning failure : Level

-- `e instanceof Error ? e.message : t(key)`
abbrev pub describe : Thrown → String → Message
describe (error m) key = own m
describe other key = translated key []

-- The options of `Modal.confirm`, with the option `count` of its content.
pub record Dialog : Type 0 where
  pub title : String
  pub content : String
  pub count : Option ℕ
  pub ok_text : String
  pub cancel_text : String

-- `confirm d k` opens a dialog and goes on as `k true` on OK and as `k false` when it is cancelled.
pub data Script (S A : Type 0) : Type 0 where
  pure : A → Script S A
  update : (S → S) → Script S A → Script S A
  show : Level → Message → Script S A → Script S A
  navigate : Text → Bool → Script S A → Script S A
  confirm : Dialog → (Bool → Script S A) → Script S A
  await : (q : ApiCall) → (Outcome (Answer q) → Script S A) → Script S A
  await_all : (qs : List ApiCall) → (Answers qs → Script S A) → Script S A

infixl 5 ◌>>=◌ ◌>>◌
unfoldable pub ◌>>=◌ : {S A B : Type 0} → Script S A → (A → Script S B) → Script S B
pure a >>= f = f a
update g k >>= f = update g (k >>= f)
show l m k >>= f = show l m (k >>= f)
navigate p r k >>= f = navigate p r (k >>= f)
confirm d k >>= f = confirm d (λ b. k b >>= f)
await q k >>= f = await q (λ o. k o >>= f)
await_all qs k >>= f = await_all qs (λ os. k os >>= f)

abbrev pub ◌>>◌ : {S A B : Type 0} → Script S A → Script S B → Script S B
m >> k = m >>= λ _. k

module _ {S : Type 0} where
  -- `return;`
  abbrev pub skip : Script S (Unit {0})
  skip = pure tt

  -- A call of a state setter.
  abbrev pub modify : (S → S) → Script S (Unit {0})
  modify f = update f skip

  abbrev pub show_message : Level → Message → Script S (Unit {0})
  show_message l m = show l m skip

  -- `navigate(path, { replace })`
  abbrev pub go : Text → Bool → Script S (Unit {0})
  go path replace = navigate path replace skip

  -- `Modal.confirm({ ..., onOk })`, after which the source's handlers do nothing more.
  abbrev pub confirm_then : Dialog → Script S (Unit {0}) → Script S (Unit {0})
  confirm_then d on_ok = confirm d (elim [ true ↦ on_ok | false ↦ skip ])

  -- `await f(...)`, with what it throws as a value.
  abbrev pub call : (q : ApiCall) → Script S (Outcome (Answer q))
  call q = await q pure

  abbrev pub all_settled : (qs : List ApiCall) → Script S (Answers qs)
  all_settled qs = await_all qs pure

-- `result.status === "fulfilled"`
abbrev pub is_fulfilled : {A : Type 0} → Outcome A → Bool
is_fulfilled (fulfilled a) = true
is_fulfilled (rejected e) = false

-- The `status` of each result of `Promise.allSettled`.
abbrev pub statuses : (qs : List ApiCall) → Answers qs → List Bool
statuses [] _ = []
statuses (q ∷ qs) (o, os) = is_fulfilled o ∷ statuses qs os
