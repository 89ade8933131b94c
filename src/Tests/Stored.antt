-- ===== src/Tests/Stored.antt =====
-- The groups in the rows of the tables, on a server that keeps them.
use split_proxy.Base.{
  ◌≡◌, ◌≢◌, refl, false, ℕ, Text, text_beq, text_beq_iff, Bool-cases, true, inl, inr, Option, none,
  some, [], ◌∷◌, if◌then◌else◌, at_head, in_tail,
}
use split_proxy.Text.{codes}
use split_proxy.Api.{
  CidrRule, ApiCall, Answer, Outcome, fulfilled, rejected, other, update_domain, update_cidr,
  update_worker, get_workers,
}
use split_proxy.Script.Run.{Surroundings, run}
use split_proxy.Splitting.Domains
use split_proxy.Splitting.Cidrs
use split_proxy.Groups
use split_proxy.Agreement.{change_group-Agrees, change_cidr_group-stale}
use split_proxy.Agreement.Bulk.{Lists, bulk_update_to-Agrees}
use split_proxy.Agreement.Rows.{domain_rows, cidr_rows, worker_rows, Agrees, Updates}
use split_proxy.Tests.Data.{a_worker, b_worker}

abbrev put : Text → Option ℕ → (Text → Option ℕ) → Text → Option ℕ
put key group groups k = if text_beq k key then group else groups k

put-Updates :
    (key : Text) (group : Option ℕ) (groups : Text → Option ℕ)
    → Updates key group true groups (put key group groups)
put-Updates key group groups = (
  rw ((text_beq_iff key key).1 refl) refl,
  λ k differs. elim (Bool-cases (text_beq k key)) [
    | inl same ↦ absurd (differs ((text_beq_iff k key).0 same))
    | inr other_key ↦ rw other_key refl
  ],
)

abbrev typed_cidr : Text
typed_cidr = codes "192.168.0.1/24"

-- The network of a range, for one range.
abbrev normal_form : Text → Text
normal_form k = if text_beq k typed_cidr then codes "192.168.0.0/24" else k

-- A server that keeps the groups of all keys, those of ranges under their network, and accepts
-- their updates only.
abbrev answer : (q : ApiCall) → (Text → Option ℕ) → Outcome (Answer q) × (Text → Option ℕ)
answer (update_domain key group) groups = (fulfilled tt, put key (some group) groups)
answer (update_cidr key group) groups = (fulfilled tt, put (normal_form key) (some group) groups)
answer (update_worker key group) groups = (fulfilled tt, put key group groups)
answer (get_workers filters) groups = (
  fulfilled (record {
    count = 1;
    next = none;
    previous = none;
    results = record a_worker { group = groups a_worker.guid } ∷ [];
  }),
  groups,
)
answer q groups = (rejected other, groups)

abbrev a_store : Surroundings (Text → Option ℕ)
a_store = record { serve = answer; decide = λ d w. (true, w) }

abbrev some_groups : Text → Option ℕ
some_groups = put (codes "a.io") (some 1) (put a_worker.guid a_worker.group (λ k. none))

abbrev a_tab : Domains.DomainsTab
a_tab = record Domains.initial {
  domains =
      record { pattern = codes "a.io"; group = some 1 }
      ∷ record { pattern = codes "b.io"; group = none }
      ∷ [];
}

abbrev typed_row : CidrRule
typed_row = record { cidr = typed_cidr; worker_group = none }

abbrev cidrs_tab : Cidrs.CidrsTab
cidrs_tab = record Cidrs.initial {
  cidrs = record { cidr = codes "10.0.0.0/8"; worker_group = none } ∷ typed_row ∷ [];
}

abbrev a_page : Groups.GroupsPage
a_page = record Groups.initial { workers = a_worker ∷ [] }

rows-agreed :
    Agrees domain_rows some_groups a_tab.domains
    × (Agrees cidr_rows some_groups cidrs_tab.cidrs × Agrees worker_rows some_groups a_page.workers)
unfolding text_beq
rows-agreed = ((refl, (refl, tt)), ((refl, (refl, tt)), (refl, tt)))

network-normal : normal_form (codes "10.0.0.0/8") ≡ codes "10.0.0.0/8"
unfolding text_beq
network-normal = refl

change_group-Agrees_example :
    let r = run a_store (Domains.change_domain_group (codes "a.io") (some 2)) a_tab some_groups in
    let s =
      run a_store (Cidrs.change_cidr_group (codes "10.0.0.0/8") (some 2)) cidrs_tab some_groups in
    let t = run a_store (Groups.change_worker_group a_worker (some 2)) a_page some_groups in
    Agrees domain_rows r.world r.state.domains
    × (Agrees cidr_rows s.world s.state.cidrs × Agrees worker_rows t.world t.state.workers)
change_group-Agrees_example =
    change_group-Agrees a_store (λ w. w) (λ w. w) (λ w. w) normal_form (codes "a.io")
      (codes "10.0.0.0/8") a_worker (some 2) a_tab cidrs_tab a_page some_groups
      (λ key g w. put-Updates key (some g) w) (λ key g w. put-Updates (normal_form key) (some g) w)
      (λ key g w. put-Updates key g w) network-normal rows-agreed.0 rows-agreed.1.0 rows-agreed.1.1

typed_cidr-differs : normal_form typed_cidr ≢ typed_cidr
unfolding text_beq
typed_cidr-differs e =
    let h : false ≡ true = (text_beq_iff (codes "192.168.0.0/24") typed_cidr).1 e in cc h

typed_cidr-ungrouped : some_groups typed_cidr ≢ some 2
unfolding text_beq
typed_cidr-ungrouped e = cc e

-- The range that the panel gives as an example, which the server keeps as it was entered.
change_cidr_group-stale_example :
    let f = run a_store (Cidrs.change_cidr_group typed_cidr (some 2)) cidrs_tab some_groups in
    ¬ Agrees cidr_rows f.world f.state.cidrs
change_cidr_group-stale_example =
    change_cidr_group-stale a_store (λ w. w) normal_form 2 cidrs_tab some_groups typed_row
      (λ key g w. put-Updates (normal_form key) (some g) w) (in_tail (at_head refl))
      typed_cidr-differs typed_cidr-ungrouped refl

a_store-Lists : Lists a_store (λ w. w)
a_store-Lists filters w = (refl, (refl, tt))

b_worker-differs : b_worker.guid ≢ a_worker.guid
unfolding text_beq
b_worker-differs e = let h : false ≡ true = (text_beq_iff b_worker.guid a_worker.guid).1 e in cc h

-- Both workers are selected, one of which is in the table.
abbrev bulk_page : Groups.GroupsPage
bulk_page = record a_page {
  selected_worker_guids = a_worker.guid ∷ b_worker.guid ∷ [];
  bulk_group = some (Groups.to_group 2);
}

bulk_update_to-Agrees_example :
    let r =
      run a_store (Groups.bulk_update_to bulk_page bulk_page.bulk_group) bulk_page some_groups in
    Agrees worker_rows r.world r.state.workers
bulk_update_to-Agrees_example =
    bulk_update_to-Agrees a_store (λ w. w) a_store-Lists bulk_page some_groups bulk_page.bulk_group
      (λ key g w. put-Updates key g w) ((b_worker-differs, tt), (tt, tt)) rows-agreed.1.1
