-- ===== src/Script/Shows.antt =====
-- The keys of the texts that a handler shows, and the names of their options, whatever the server answers and whatever else has run.
use split_proxy.Base.{
  ℕ, Bool, true, false, Text, String, Option, none, some, List, [], ◌∷◌, map, if◌then◌else◌,
}
use split_proxy.Api.{ApiCall, Answer, Answers, Outcome, Thrown, error, other}
use split_proxy.Script.Defs.{
  Script, pure, update, show, navigate, confirm, await, await_all, ◌>>=◌, confirm_then, Dialog,
  Level, Message, own, translated, describe,
}

abbrev pub names : List (String × ℕ) → List String
names options = map (λ o. o.0) options

abbrev pub count_names : Option ℕ → List String
count_names none = []
count_names (some n) = "count" ∷ []

-- A message is a thrown error's own, or its key and the names of its options satisfy `P`.
pub data Says (P : String → List String → Type 0) : Message → Type 0 where
  says_own : (m : Text) → Says P (own m)
  says_key : {key : String} (os : List (String × ℕ)) → P key (names os) → Says P (translated key os)

-- The keys of a dialog, with the count of its content.
pub data Asks (P : String → List String → Type 0) (d : Dialog) : Type 0 where
  asks :
      P d.title []
      → P d.content (count_names d.count)
      → P d.ok_text []
      → P d.cancel_text []
      → Asks P d

-- Every message and every dialog of the script has keys that satisfy `P` with the names of their options.
pub data Shows {S A : Type 0} (P : String → List String → Type 0) : Script S A → Type 0 where
  shows_pure : (a : A) → Shows P (pure a)
  shows_update : {f : S → S} {k : Script S A} → Shows P k → Shows P (update f k)
  shows_show :
      {l : Level} {m : Message} {k : Script S A} → Says P m → Shows P k → Shows P (show l m k)
  shows_navigate : {p : Text} {r : Bool} {k : Script S A} → Shows P k → Shows P (navigate p r k)
  shows_confirm :
      {d : Dialog} {k : Bool → Script S A}
      → Asks P d
      → ((b : Bool) → Shows P (k b))
      → Shows P (confirm d k)
  shows_await :
      {q : ApiCall} {k : Outcome (Answer q) → Script S A}
      → ((o : Outcome (Answer q)) → Shows P (k o))
      → Shows P (await q k)
  shows_await_all :
      {qs : List ApiCall} {k : Answers qs → Script S A}
      → ((os : Answers qs) → Shows P (k os))
      → Shows P (await_all qs k)

module _ {P : String → List String → Type 0} where
  pub Says-describe : (e : Thrown) (key : String) → P key [] → Says P (describe e key)
  Says-describe (error m) key h = says_own m
  Says-describe other key h = says_key [] h

  module _ {S : Type 0} where
    pub Shows-bind :
        {A B : Type 0} {m : Script S A} {f : A → Script S B}
        → Shows P m
        → ((a : A) → Shows P (f a))
        → Shows P (m >>= f)
    unfolding ◌>>=◌
    Shows-bind (shows_pure a) k = k a
    Shows-bind (shows_update h) k = shows_update (Shows-bind h k)
    Shows-bind (shows_show h m) k = shows_show h (Shows-bind m k)
    Shows-bind (shows_navigate h) k = shows_navigate (Shows-bind h k)
    Shows-bind (shows_confirm h m) k = shows_confirm h (λ b. Shows-bind (m b) k)
    Shows-bind (shows_await h) k = shows_await (λ o. Shows-bind (h o) k)
    Shows-bind (shows_await_all h) k = shows_await_all (λ os. Shows-bind (h os) k)

    pub Shows-if :
        {A : Type 0} (b : Bool) {m n : Script S A}
        → Shows P m
        → Shows P n
        → Shows P (if b then m else n)
    Shows-if true h k = h
    Shows-if false h k = k

    pub Shows-confirm_then :
        {d : Dialog} {h : Script S (Unit {0})} → Asks P d → Shows P h → Shows P (confirm_then d h)
    Shows-confirm_then d k = shows_confirm d (elim [ true ↦ k | false ↦ shows_pure tt ])

-- What is said of a message, and of the message that a script starts with.
abbrev pub Said : (String → List String → Type 0) → Message → Type 0
Said P (own m) = Unit
Said P (translated key os) = P key (names os)

abbrev pub FirstSaid : {S A : Type 0} → (String → List String → Type 0) → Script S A → Type 0
FirstSaid P (show l m k) = Said P m
FirstSaid P _ = Unit

pub Shows-FirstSaid :
    {S A : Type 0} {P : String → List String → Type 0} {m : Script S A} → Shows P m → FirstSaid P m
Shows-FirstSaid (shows_pure a) = tt
Shows-FirstSaid (shows_update h) = tt
Shows-FirstSaid (shows_show (says_own t) m) = tt
Shows-FirstSaid (shows_show (says_key ns h) m) = h
Shows-FirstSaid (shows_navigate h) = tt
Shows-FirstSaid (shows_confirm d h) = tt
Shows-FirstSaid (shows_await h) = tt
Shows-FirstSaid (shows_await_all h) = tt

module _ {P Q : String → List String → Type 0}
    (weaken : (key : String) (ns : List String) → P key ns → Q key ns) where
  Says-map : {m : Message} → Says P m → Says Q m
  Says-map (says_own m) = says_own m
  Says-map (says_key {key} os h) = says_key os (weaken key (names os) h)

  Asks-map : {d : Dialog} → Asks P d → Asks Q d
  Asks-map (asks t c o n) = asks (weaken _ _ t) (weaken _ _ c) (weaken _ _ o) (weaken _ _ n)

  pub Shows-map : {S A : Type 0} {m : Script S A} → Shows P m → Shows Q m
  Shows-map (shows_pure a) = shows_pure a
  Shows-map (shows_update h) = shows_update (Shows-map h)
  Shows-map (shows_show h m) = shows_show (Says-map h) (Shows-map m)
  Shows-map (shows_navigate h) = shows_navigate (Shows-map h)
  Shows-map (shows_confirm d h) = shows_confirm (Asks-map d) (λ b. Shows-map (h b))
  Shows-map (shows_await h) = shows_await (λ o. Shows-map (h o))
  Shows-map (shows_await_all h) = shows_await_all (λ os. Shows-map (h os))

pub ruleset showing = (
  says_own, says_key, asks, shows_pure, shows_update, shows_show, shows_navigate, shows_await,
  shows_await_all, Says-describe, Shows-bind, Shows-if, Shows-confirm_then,
)
