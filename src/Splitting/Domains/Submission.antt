-- ===== src/Splitting/Domains/Submission.antt =====
-- What the option to include subdomains makes of the entered patterns.
use split_proxy.Base.{
  ◌≡◌, ◌⊎◌, inl, inr, refl, ap, Bool, true, false, Text, List, [], ◌∷◌, ◌++◌, All, Member, at_head,
  in_tail, if◌then◌else◌,
}
use split_proxy.Text.{codes}
use split_proxy.Splitting.Domains.Handlers.{with_subdomains}

abbrev pub subdomain_of : Text → Text
subdomain_of p = codes "*." ++ p

-- A pattern that may be sent: an entered one, or, with the option, a subdomain pattern of one.
abbrev pub MaySend : Bool → List Text → Text → Type 0
MaySend include entered q =
    Member q entered ⊎ ((include ≡ true) × ((p : Text) × (Member p entered × (q ≡ subdomain_of p))))

-- Every entered pattern is sent, with the option its subdomain pattern as well, and nothing else.
pub record IsSubmission (include : Bool) (entered sent : List Text) : Type 0 where
  pub has_entered : All (λ p. Member p sent) entered
  pub has_subdomains : All (λ p. Member (subdomain_of p) sent) (if include then entered else [])
  pub has_no_other : All (MaySend include entered) sent

All-of_Member : {P : Text → Type 0} (xs : List Text) → ((x : Text) → Member x xs → P x) → All P xs
All-of_Member [] h = tt
All-of_Member (x ∷ xs) h = (h x (at_head refl), All-of_Member xs (λ y m. h y (in_tail m)))

with_subdomains-Member :
    (p : Text) (ps : List Text) → Member p ps → Member p (with_subdomains true ps)
unfolding with_subdomains
with_subdomains-Member p [] m = elim m [ ]
with_subdomains-Member p (x ∷ ps) (at_head e) = at_head e
with_subdomains-Member p (x ∷ ps) (in_tail m) = in_tail (in_tail (with_subdomains-Member p ps m))

with_subdomains-Member_subdomain :
    (p : Text) (ps : List Text) → Member p ps → Member (subdomain_of p) (with_subdomains true ps)
unfolding with_subdomains
with_subdomains-Member_subdomain p [] m = elim m [ ]
with_subdomains-Member_subdomain p (x ∷ ps) (at_head e) = in_tail (at_head (ap subdomain_of e))
with_subdomains-Member_subdomain p (x ∷ ps) (in_tail m) =
    in_tail (in_tail (with_subdomains-Member_subdomain p ps m))

-- What is among the patterns with their subdomain patterns.
with_subdomains-MaySend :
    (q : Text) (ps : List Text) → Member q (with_subdomains true ps) → MaySend true ps q
unfolding with_subdomains
with_subdomains-MaySend q [] m = elim m [ ]
with_subdomains-MaySend q (x ∷ ps) (at_head e) = inl (at_head e)
with_subdomains-MaySend q (x ∷ ps) (in_tail (at_head e)) = inr (refl, (x, (at_head refl, e)))
with_subdomains-MaySend q (x ∷ ps) (in_tail (in_tail m)) = elim (with_subdomains-MaySend q ps m) [
  | inl entered ↦ inl (in_tail entered)
  | inr (e, (p, (member, same))) ↦ inr (e, (p, (in_tail member, same)))
]

pub with_subdomains-IsSubmission :
    (include : Bool) (ps : List Text) → IsSubmission include ps (with_subdomains include ps)
with_subdomains-IsSubmission true ps = record {
  has_entered = All-of_Member ps (λ p m. with_subdomains-Member p ps m);
  has_subdomains = All-of_Member ps (λ p m. with_subdomains-Member_subdomain p ps m);
  has_no_other = All-of_Member (with_subdomains true ps) (λ q m. with_subdomains-MaySend q ps m);
}
with_subdomains-IsSubmission false ps =
    unfold with_subdomains in
    record {
      has_entered = All-of_Member ps (λ p m. m);
      has_subdomains = tt;
      has_no_other = All-of_Member ps (λ q m. inl m);
    }
