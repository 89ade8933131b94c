-- ===== src/Tests/Routes.antt =====
-- The default route and the domains tab of the routing page at concrete inputs.
use split_proxy.Base.{
  subst, pos, ◌≡◌, ◌↔◌, refl, true, false, text_beq, List, [], ◌∷◌, none, some, arith, All, Text,
}
use split_proxy.Text.{
  lines, codes, trim, trim_start, trim_end, is_space, includes, starts_with, ends_with, slice,
  split, code_points,
}
use split_proxy.Api.{add_domains, fulfilled, get_list_domains}
use split_proxy.Script.{pure, ◌>>=◌}
use split_proxy.Script.Run.{run, Event, sent}
use split_proxy.Script.Sends.{Sends}
use split_proxy.Script.Interleaving.{Reach, here, start, turn, first, settled}
use split_proxy.Splitting.Validation.{is_valid_domain, is_valid_label, matches_label}
use split_proxy.Splitting.Validation.DomainLaws.{IsDomain, is_valid_domain_iff}
use split_proxy.Splitting.Domains
use split_proxy.Splitting.Domains.Adding
use split_proxy.Splitting.Domains.Submission.{IsSubmission}
use split_proxy.Splitting.Domains.Subdomains.{Valid, with_subdomains-Valid, with_subdomains-star}
use split_proxy.Splitting.Domains.Bulk as DomainsBulk
use split_proxy.Splitting.Domains.Paging as DomainsPaging
use split_proxy.Tests.Data.{ascii, surroundings, is_not_x, domains-Accepts, a_domain}

is_valid_domain_iff_example :
    (is_valid_domain ascii (codes " *.a.io ") ≡ true) ↔ IsDomain ascii (trim (codes " *.a.io "))
is_valid_domain_iff_example = is_valid_domain_iff ascii (codes " *.a.io ")

abbrev domains_page : Domains.DomainsTab
domains_page = record Domains.initial {
  domains = a_domain ∷ [];
  domain_page = pos 2;
  selected_domain_patterns = codes "x" ∷ codes "y" ∷ [];
  new_domains = codes "a.io";
  domain_group = some 1;
  include_subdomains = true;
}

handle_add_domains-Requested_example :
    Sends (Adding.Requested ascii domains_page) (Domains.handle_add_domains ascii domains_page)
handle_add_domains-Requested_example = Adding.handle_add_domains-Requested ascii domains_page

a_pattern-Valid : Valid ascii (codes "a.io")
unfolding is_valid_domain is_valid_label matches_label trim trim_start trim_end is_space includes
    starts_with ends_with slice split code_points text_beq
a_pattern-Valid = refl

a_pattern-trimmed : trim (codes "a.io") ≡ codes "a.io"
unfolding trim trim_start trim_end is_space
a_pattern-trimmed = refl

a_pattern-plain : includes b'*' (codes "a.io") ≡ false
unfolding includes
a_pattern-plain = refl

with_subdomains-Valid_example : All (Valid ascii) (Domains.with_subdomains true (codes "a.io" ∷ []))
with_subdomains-Valid_example =
    with_subdomains-Valid ascii true (codes "a.io" ∷ []) ((a_pattern-trimmed, a_pattern-Valid), tt)
      (a_pattern-plain, tt)

a_wildcard-trimmed : trim (codes "*.a.io") ≡ codes "*.a.io"
unfolding trim trim_start trim_end is_space
a_wildcard-trimmed = refl

a_wildcard-star : includes b'*' (codes "*.a.io") ≡ true
unfolding includes
a_wildcard-star = refl

with_subdomains-star_example :
    ¬ All (Valid ascii) (Domains.with_subdomains true (codes "*.a.io" ∷ []))
with_subdomains-star_example =
    with_subdomains-star ascii (codes "*.a.io") [] a_wildcard-trimmed a_wildcard-star

delete_confirmed-selected_example :
    let r = run surroundings (Domains.delete_confirmed domains_page) domains_page 0 in
    (r.state.selected_domain_patterns ≡ codes "x" ∷ []) × (r.state.bulk_domain_loading ≡ false)
unfolding text_beq
delete_confirmed-selected_example =
    DomainsBulk.delete_confirmed-selected surroundings domains_page domains_page 0 is_not_x
      domains-Accepts

-- The last row of the second page: the user changes the page, and its load is answered.
abbrev last_domain : Domains.DomainsTab
last_domain = record Domains.initial {
  domains = a_domain ∷ [];
  domain_page = pos 2;
  domain_total = 101;
  loading_domains = false;
}

last_domain-Reach :
    Reach (Domains.Starts ascii) Domains.initial last_domain (pure tt ∷ pure tt ∷ [])
unfolding Domains.respond Domains.page_changed Domains.load_domains Domains.domains_loaded ◌>>=◌
last_domain-Reach =
    turn
      (start (start here (Domains.by (Domains.change_page 2 100) (omega arith, omega arith)))
        (Domains.by Domains.load_effect tt))
      (first (
        settled (get_list_domains _) _ (
          fulfilled
            (record { count = 101; next = none; previous = none; results = a_domain ∷ [] }))))

Reach-page_zero_example :
    (s : Domains.DomainsTab) × ((hs : List Domains.Handler) × (Reach
          (Domains.Starts ascii)
          Domains.initial
          s
          hs
        × (s.domain_page ≡ pos 0)))
Reach-page_zero_example =
    DomainsPaging.Reach-page_zero ascii a_domain last_domain-Reach refl refl (λ e. cc)

abbrev new_patterns : List Text
new_patterns = codes "a.io" ∷ []

new_patterns-entered : Domains.entered_patterns (codes "a.io") ≡ new_patterns
unfolding Domains.entered_patterns trim trim_start trim_end is_space lines starts_with
new_patterns-entered = refl

a_pattern-IsDomain : IsDomain ascii (codes "a.io")
a_pattern-IsDomain =
    subst (IsDomain ascii) a_pattern-trimmed
      ((is_valid_domain_iff ascii (codes "a.io")).0 a_pattern-Valid)

handle_add_domains-sent_example :
    (patterns : List Text) × (IsSubmission true (Domains.entered_patterns (codes "a.io")) patterns
      × ((rest : List Event) × ((run surroundings
              (Domains.handle_add_domains ascii domains_page)
              domains_page
              0).events
            ≡ sent (add_domains patterns 1) ∷ rest)))
handle_add_domains-sent_example =
    Adding.handle_add_domains-sent surroundings ascii domains_page domains_page 0 1
      (λ e. cc (new_patterns-entered, e)) (rw new_patterns-entered (a_pattern-IsDomain, tt)) refl
