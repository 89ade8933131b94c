-- ===== src/Script/Interleaving.antt =====
-- All runs of a page: handlers start at any time, with the state of the latest render as their
-- closure, and each goes on at its next await in any order, on any answer.
use split_proxy.Base.{Bool, List, [], ◌∷◌, All}
use split_proxy.Api.{ApiCall, Answer, Answers, Outcome}
use split_proxy.Script.Defs.{
  Script, Dialog, pure, update, show, navigate, confirm, await, await_all,
}
use split_proxy.Script.Keeps.{
  Keeps, keeps_update, keeps_show, keeps_navigate, keeps_confirm, keeps_await, keeps_await_all,
}

module _ {S : Type 0} where
  -- The state at the next await or at the end, and what is left to do there.
  abbrev pub advance : Script S (Unit {0}) → S → S × Script S (Unit {0})
  advance (pure a) s = (s, pure a)
  advance (update f k) s = advance k (f s)
  advance (show l m k) s = advance k s
  advance (navigate p r k) s = advance k s
  advance (confirm d k) s = (s, confirm d k)
  advance (await q k) s = (s, await q k)
  advance (await_all qs k) s = (s, await_all qs k)

  -- One suspended handler receives the outcome of what it awaits, or the answer to its dialog.
  pub data Resumes : Script S (Unit {0}) → Script S (Unit {0}) → Type 0 where
    decided : (d : Dialog) (k : Bool → Script S (Unit {0})) (b : Bool) → Resumes (confirm d k) (k b)
    settled :
        (q : ApiCall) (k : Outcome (Answer q) → Script S (Unit {0})) (o : Outcome (Answer q))
        → Resumes (await q k) (k o)
    all_settled :
        (qs : List ApiCall) (k : Answers qs → Script S (Unit {0})) (os : Answers qs)
        → Resumes (await_all qs k) (k os)

  -- `Turn hs h gs`: one of the handlers `hs` goes on as `h`, and the others are `gs`.
  pub data Turn
      : List (Script S (Unit {0})) → Script S (Unit {0}) → List (Script S (Unit {0})) → Type 0 where
    first :
        {g h : Script S (Unit {0})} {hs : List (Script S (Unit {0}))}
        → Resumes g h
        → Turn (g ∷ hs) h hs
    later :
        {g h : Script S (Unit {0})} {hs gs : List (Script S (Unit {0}))}
        → Turn hs h gs
        → Turn (g ∷ hs) h (g ∷ gs)

  -- A page's state with its suspended handlers. `Starts s h`: in state `s`, handler `h` may start.
  pub data Reach (Starts : S → Script S (Unit {0}) → Type 0) (init : S)
      : S → List (Script S (Unit {0})) → Type 0 where
    here : Reach Starts init init []
    start :
        {s : S} {hs : List (Script S (Unit {0}))} {h : Script S (Unit {0})}
        → Reach Starts init s hs
        → Starts s h
        → Reach Starts init (advance h s).0 ((advance h s).1 ∷ hs)
    turn :
        {s : S} {hs gs : List (Script S (Unit {0}))} {h : Script S (Unit {0})}
        → Reach Starts init s hs
        → Turn hs h gs
        → Reach Starts init (advance h s).0 ((advance h s).1 ∷ gs)

module _ {S : Type 0} (I : S → Type 0) where
  advance-Keeps :
      (h : Script S (Unit {0})) (s : S)
      → Keeps I h
      → I s
      → I (advance h s).0 × Keeps I (advance h s).1
  advance-Keeps (pure a) s k i = (i, k)
  advance-Keeps (update f h) s (keeps_update e k) i = advance-Keeps h (f s) k (e s i)
  advance-Keeps (show l m h) s (keeps_show k) i = advance-Keeps h s k i
  advance-Keeps (navigate p r h) s (keeps_navigate k) i = advance-Keeps h s k i
  advance-Keeps (confirm d h) s k i = (i, k)
  advance-Keeps (await q h) s k i = (i, k)
  advance-Keeps (await_all qs h) s k i = (i, k)

  Resumes-Keeps : {g h : Script S (Unit {0})} → Resumes g h → Keeps I g → Keeps I h
  Resumes-Keeps (decided d k b) (keeps_confirm h) = h b
  Resumes-Keeps (settled q k o) (keeps_await h) = h o
  Resumes-Keeps (all_settled qs k os) (keeps_await_all h) = h os

  Turn-Keeps :
      {h : Script S (Unit {0})} {hs gs : List (Script S (Unit {0}))}
      → Turn hs h gs
      → All (Keeps I) hs
      → Keeps I h × All (Keeps I) gs
  Turn-Keeps (first r) (k, ks) = (Resumes-Keeps r k, ks)
  Turn-Keeps (later t) (k, ks) = let (kh, kgs) = Turn-Keeps t ks in (kh, (k, kgs))

  Reach-Keeps :
      (Starts : S → Script S (Unit {0}) → Type 0)
      (keeps : (s : S) (h : Script S (Unit {0})) → I s → Starts s h → Keeps I h) (init : S) {s : S}
      {hs : List (Script S (Unit {0}))}
      → I init
      → Reach Starts init s hs
      → I s × All (Keeps I) hs
  Reach-Keeps Starts keeps init i here = (i, tt)
  Reach-Keeps Starts keeps init i (start {s} {h} r st) =
      let (is, ks) = Reach-Keeps Starts keeps init i r in
      let (i', k') = advance-Keeps h s (keeps s h is st) is in (i', (k', ks))
  Reach-Keeps Starts keeps init i (turn {s} {h} r t) =
      let (is, ks) = Reach-Keeps Starts keeps init i r in
      let (kh, kgs) = Turn-Keeps t ks in let (i', k') = advance-Keeps h s kh is in (i', (k', kgs))

  -- An invariant that every handler keeps holds in all runs of the page.
  pub Reach-invariant :
      (Starts : S → Script S (Unit {0}) → Type 0)
      (keeps : (s : S) (h : Script S (Unit {0})) → I s → Starts s h → Keeps I h) (init : S) {s : S}
      {hs : List (Script S (Unit {0}))}
      → I init
      → Reach Starts init s hs
      → I s
  Reach-invariant Starts keeps init i r = (Reach-Keeps Starts keeps init i r).0
