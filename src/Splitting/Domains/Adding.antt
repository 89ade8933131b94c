-- ===== src/Splitting/Domains/Adding.antt =====
-- The requests that `handleAddDomains` can send.
use split_proxy.Base.{
  ℕ, ◌≡◌, ◌≢◌, ◌⊎◌, inl, inr, refl, sym, subst, false, not, Text, Option, none, some, List, [], ◌∷◌,
  map, filter, find, is_truthy, All, length, arith, nat_beq, Bool-cases,
}
use split_proxy.Api.{
  ApiCall, DomainRule, Paginated, PaginationParams, get_list_domains, add_domains, Outcome,
  fulfilled, rejected,
}
use split_proxy.Text.{trim, lines}
use split_proxy.Text.Laws.{trim_idem}
use split_proxy.Script.{◌>>=◌}
use split_proxy.Script.Run.{Surroundings, run, Event, sent}
use split_proxy.Script.Sends.{Sends, sending}
use split_proxy.Splitting.Validation.{Unicode, is_valid_domain}
use split_proxy.Splitting.Domains.{
  DomainsTab, domains_loaded, load_domains, entered_patterns, with_subdomains, domains_added,
  submit_domains, handle_add_domains,
}
use split_proxy.Splitting.Validation.DomainLaws.{IsDomain, is_valid_domain_iff}
use split_proxy.Splitting.Domains.Subdomains.{Valid, Entered}
use split_proxy.Splitting.Domains.Submission.{IsSubmission, with_subdomains-IsSubmission}

-- A reload, or an addition to the chosen group of the entered patterns, with the option also of
-- their subdomain patterns, and of no others, where there are some, and each entered one is trimmed
-- and valid.
abbrev pub Requested : Unicode → DomainsTab → ApiCall → Type 0
Requested u c q =
    let entered = entered_patterns c.new_domains in
    ((params : PaginationParams) × (q ≡ get_list_domains params))
    ⊎ ((group : ℕ) × ((patterns : List Text) × ((c.domain_group ≡ some group)
            × ((q ≡ add_domains patterns group)
                × (IsSubmission c.include_subdomains entered patterns
                    × ((entered ≢ []) × Entered u entered))))))

domains_loaded-Sends :
    {P : ApiCall → Type 0} (o : Outcome (Paginated DomainRule)) → Sends P (domains_loaded o)
unfolding domains_loaded
domains_loaded-Sends (fulfilled r) = search (sending) depth 8
domains_loaded-Sends (rejected e) = search sending

module _ {P : ApiCall → Type 0}
    (reloads : (params : PaginationParams) → P (get_list_domains params)) where
  pub load_domains-Sends : (c : DomainsTab) → Sends P (load_domains c)
  unfolding load_domains
  load_domains-Sends c = search (sending, domains_loaded-Sends, reloads) depth 8

  domains_added-Sends : (c : DomainsTab) (o : Outcome (Unit {0})) → Sends P (domains_added c o)
  unfolding domains_added
  domains_added-Sends c (fulfilled _) = search (sending, load_domains-Sends) depth 10
  domains_added-Sends c (rejected e) = search sending

  submit_domains-Sends :
      (c : DomainsTab) (ps : List Text) (chosen : Option ℕ)
      → ((group : ℕ)
          → chosen ≡ some group
          → P (add_domains (with_subdomains c.include_subdomains ps) group))
      → Sends P (submit_domains c ps chosen)
  unfolding submit_domains
  submit_domains-Sends c ps none h = search sending
  submit_domains-Sends c ps (some group) h =
      let p = h group refl in search (sending, domains_added-Sends, p) depth 8

module _ (u : Unicode) where
  -- The patterns among which the page finds none that is invalid are all valid.
  pub find-Valid :
      (ps : List Text)
      → All (λ p. nat_beq (length p) 0 ≡ false) ps
      → is_truthy (find (λ p. not (is_valid_domain u p)) ps) ≡ false
      → All (Valid u) ps
  find-Valid [] n h = tt
  find-Valid ([] ∷ ps) n h = absurd (ground arith)
  find-Valid ((x ∷ p) ∷ ps) n h = elim (Bool-cases (is_valid_domain u (x ∷ p))) [
    | inl valid ↦ (valid, find-Valid ps n.1 (ground arith))
    | inr invalid ↦ absurd (ground arith)
  ]

abbrev pub Filled : Text → Type 0
Filled p = nat_beq (length p) 0 ≡ false

trimmed-Filled :
    (ts : List Text)
    → All (λ p. (trim p ≡ p) × Filled p) (filter (λ p. not (nat_beq (length p) 0)) (map trim ts))
trimmed-Filled [] = tt
trimmed-Filled (t ∷ ts) = elim (Bool-cases (nat_beq (length (trim t)) 0)) [
  | inl empty ↦ rw empty (trimmed-Filled ts)
  | inr filled ↦ rw filled ((trim_idem t, filled), trimmed-Filled ts)
]

pub All-Filled : (ps : List Text) → All (λ p. (trim p ≡ p) × Filled p) ps → All Filled ps
All-Filled [] h = tt
All-Filled (p ∷ ps) h = (h.0.1, All-Filled ps h.1)

Valid-Entered :
    (u : Unicode) (ps : List Text)
    → All (λ p. (trim p ≡ p) × Filled p) ps
    → All (Valid u) ps
    → Entered u ps
Valid-Entered u [] h k = tt
Valid-Entered u (p ∷ ps) h k = ((h.0.0, k.0), Valid-Entered u ps h.1 k.1)

pub entered_patterns-trimmed :
    (text : Text) → All (λ p. (trim p ≡ p) × Filled p) (entered_patterns text)
unfolding entered_patterns
entered_patterns-trimmed text = trimmed-Filled (lines text)

-- Whatever the server answers, the only requests of the add button are reloads and an addition to
-- the chosen group. What is added is every entered pattern, with the option to include subdomains
-- also `*.` before each of them, and nothing else; and it is sent only where there is an entered
-- pattern, a group is chosen, and every entered pattern is trimmed and valid.
pub handle_add_domains-Requested :
    (u : Unicode) (c : DomainsTab) → Sends (Requested u c) (handle_add_domains u c)
unfolding handle_add_domains
handle_add_domains-Requested u c =
    let ps = entered_patterns c.new_domains in
    elim (Bool-cases (nat_beq (length ps) 0)) [
      | inl empty ↦ rw empty (search sending)
      | inr filled ↦ elim (Bool-cases (is_truthy (find (λ p. not (is_valid_domain u p)) ps))) [
        | inl invalid ↦ rw (filled, invalid) (search sending)
        | inr valid ↦
            let entered =
              Valid-Entered u ps (entered_patterns-trimmed c.new_domains)
                (find-Valid u ps (All-Filled ps (entered_patterns-trimmed c.new_domains)) valid) in
            rw (filled, valid)
              (submit_domains-Sends (λ params. inl (params, refl)) c ps c.domain_group
                (λ group e. inr (
                  group,
                  (
                    with_subdomains c.include_subdomains ps,
                    (
                      e,
                      (
                        refl,
                        (
                          with_subdomains-IsSubmission c.include_subdomains ps,
                          (λ n. ground (arith, n), entered),
                        ),
                      ),
                    ),
                  ),
                )))
      ]
    ]

pub find-none :
    (u : Unicode) (ps : List Text)
    → All (Valid u) ps
    → is_truthy (find (λ p. not (is_valid_domain u p)) ps) ≡ false
find-none u [] h = refl
find-none u (p ∷ ps) h = rw h.0 (find-none u ps h.1)

-- Trimmed domain names are valid.
IsDomain-Valid :
    (u : Unicode) (ps : List Text)
    → All (λ p. (trim p ≡ p) × Filled p) ps
    → All (IsDomain u) ps
    → All (Valid u) ps
IsDomain-Valid u [] t h = tt
IsDomain-Valid u (p ∷ ps) t h =
    ((is_valid_domain_iff u p).1 (subst (IsDomain u) (sym t.0.0) h.0), IsDomain-Valid u ps t.1 h.1)

-- Where there are entered patterns, each of them a domain name, and a group is chosen, the first
-- request of the add button is an addition to that group of every entered pattern, with the option
-- to include subdomains also of `*.` before each of them, and of nothing else.
pub handle_add_domains-sent :
    {W : Type 0} (t : Surroundings W) (u : Unicode) (c s : DomainsTab) (w : W) (group : ℕ)
    → entered_patterns c.new_domains ≢ []
    → All (IsDomain u) (entered_patterns c.new_domains)
    → c.domain_group ≡ some group
    → (patterns : List Text) × (IsSubmission c.include_subdomains
          (entered_patterns c.new_domains)
          patterns
        × ((rest : List Event) × ((run t (handle_add_domains u c) s w).events
              ≡ sent (add_domains patterns group) ∷ rest)))
unfolding handle_add_domains submit_domains ◌>>=◌
handle_add_domains-sent t u c s w group ne domains chosen =
    let ps = entered_patterns c.new_domains in
    let valid = IsDomain-Valid u ps (entered_patterns-trimmed c.new_domains) domains in
    elim (Bool-cases (nat_beq (length ps) 0)) [
      | inl empty ↦ absurd (ne (ground arith))
      | inr filled ↦ (
        with_subdomains c.include_subdomains ps,
        (
          with_subdomains-IsSubmission c.include_subdomains ps,
          rw (filled, find-none u ps valid, chosen) (_, refl),
        ),
      )
    ]
