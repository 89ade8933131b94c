-- ===== src/Script/Run.antt =====
-- One handler on its own, against a server that answers each call: the final state of the server
-- and of the page, and what the handler did, in order.
use split_proxy.Base.{Bool, Text, List, [], ◌∷◌, ◌++◌, map}
use split_proxy.Api.{ApiCall, Answer, Answers, Outcome}
use split_proxy.Script.Defs.{
  Script, pure, update, show, navigate, confirm, await, await_all, Dialog, Message, Level,
}

pub data Event : Type 0 where
  sent : ApiCall → Event
  shown : Level → Message → Event
  went : Text → Bool → Event
  asked : Dialog → Event

-- What the page meets: a server with states `W`, and the user's answers to its dialogs.
pub record Surroundings (W : Type 0) : Type 0 where
  pub serve : (q : ApiCall) → W → Outcome (Answer q) × W
  pub decide : Dialog → W → Bool × W

module _ {W : Type 0} (u : Surroundings W) where
  abbrev pub serve_all : (qs : List ApiCall) → W → Answers qs × W
  serve_all [] w = (tt, w)
  serve_all (q ∷ qs) w =
      let (o, w') = u.serve q w in let (os, w'') = serve_all qs w' in ((o, os), w'')

pub record Finished (W S A : Type 0) : Type 0 where
  pub value : A
  pub state : S
  pub world : W
  pub events : List Event

abbrev pub emit : {W S A : Type 0} → List Event → Finished W S A → Finished W S A
emit es r = record r { events = es ++ r.events }

module _ {W S : Type 0} (u : Surroundings W) where
  abbrev pub run : {A : Type 0} → Script S A → S → W → Finished W S A
  run (pure a) s w = record { value = a; state = s; world = w; events = [] }
  run (update f k) s w = run k (f s) w
  run (show l m k) s w = emit (shown l m ∷ []) (run k s w)
  run (navigate p r k) s w = emit (went p r ∷ []) (run k s w)
  run (confirm d k) s w = let (b, w') = u.decide d w in emit (asked d ∷ []) (run (k b) s w')
  run (await q k) s w = let (o, w') = u.serve q w in emit (sent q ∷ []) (run (k o) s w')
  run (await_all qs k) s w = let (os, w') = serve_all u qs w in emit (map sent qs) (run (k os) s w')
