-- ===== src/Tests/Data.antt =====
-- A server, a user and some records to run the pages with.
use split_proxy.Base.{
  ℕ, suc, ◌≡◌, refl, Bool, true, false, not, Text, text_beq, nat_beq, Option, none, some,
}
use split_proxy.Text.{codes, is_alphanumeric}
use split_proxy.Api.{
  ApiCall, Answer, Outcome, fulfilled, rejected, other, remove_proxy, delete_domain, delete_cidr,
  clear_all_cidrs, update_worker, remove_worker, DomainRule, CidrRule, WorkerItem, User,
}
use split_proxy.Script.{is_fulfilled}
use split_proxy.Script.Run.{Surroundings}
use split_proxy.Script.Compose.{Accepts}
use split_proxy.Splitting.Validation.{Unicode}

-- The letters and digits of ASCII only.
abbrev pub ascii : Unicode
ascii = record { letter_or_number = is_alphanumeric; dot_is_neither = refl; star_is_neither = refl }

abbrev answer_if : Bool → Outcome (Unit {0})
answer_if true = fulfilled tt
answer_if false = rejected other

-- It refuses proxy 2 and every route and worker named `x`, and counts the calls.
abbrev pub serve : (q : ApiCall) → ℕ → Outcome (Answer q) × ℕ
serve (remove_proxy id) w = (answer_if (not (nat_beq id 2)), suc w)
serve (delete_domain pattern) w = (answer_if (not (text_beq pattern (codes "x"))), suc w)
serve (delete_cidr cidr) w = (answer_if (not (text_beq cidr (codes "x"))), suc w)
serve (update_worker guid group) w = (answer_if (not (text_beq guid (codes "x"))), suc w)
serve (remove_worker guid) w = (answer_if (not (text_beq guid (codes "x"))), suc w)
serve clear_all_cidrs w = (fulfilled tt, suc w)
serve _ w = (rejected other, suc w)

abbrev pub surroundings : Surroundings ℕ
surroundings = record { serve = serve; decide = λ d w. (true, w) }

abbrev pub is_not_two : ℕ → Bool
is_not_two id = not (nat_beq id 2)

abbrev pub is_not_x : Text → Bool
is_not_x s = not (text_beq s (codes "x"))

answer_if-lem : (b : Bool) → is_fulfilled (answer_if b) ≡ b
answer_if-lem true = refl
answer_if-lem false = refl

pub proxies-Accepts : Accepts surroundings remove_proxy is_not_two
proxies-Accepts id w = answer_if-lem (is_not_two id)

pub domains-Accepts : Accepts surroundings delete_domain is_not_x
domains-Accepts s w = answer_if-lem (is_not_x s)

pub updates-Accepts : (g : Option ℕ) → Accepts surroundings (λ guid. update_worker guid g) is_not_x
updates-Accepts g s w = answer_if-lem (is_not_x s)

pub workers-Accepts : Accepts surroundings remove_worker is_not_x
workers-Accepts s w = answer_if-lem (is_not_x s)

abbrev pub a_worker : WorkerItem
a_worker = record {
  guid = codes "a";
  ip_address = codes "10.0.0.1";
  online = false;
  group = none;
  created_at = 0;
  updated_at = 0;
}

abbrev pub b_worker : WorkerItem
b_worker = record a_worker { guid = codes "b"; online = true }

abbrev pub a_user : User
a_user = record {
  id = 7;
  username = codes "ann";
  password = codes "secret";
  created_at = 0;
  updated_at = 0;
  is_superuser = false;
}

abbrev pub a_domain : DomainRule
a_domain = record { pattern = codes "a.io"; group = some 1 }

abbrev pub a_cidr : CidrRule
a_cidr = record { cidr = codes "10.0.0.0/8"; worker_group = some 1 }
