-- ===== src/Splitting/Domains/Subdomains.antt =====
-- The patterns that the option to include subdomains adds to those that were entered.
use split_proxy.Base.{
  ◌≡◌, refl, sym, ap, ◌∙◌, subst, Bool, true, false, Text, List, [], ◌∷◌, ◌++◌, All, Bool-cases,
  inl, inr,
}
use split_proxy.Text.{codes, trim, includes, is_space}
use split_proxy.Text.Laws.{Free, join, trim-cons}
use split_proxy.Splitting.Validation.{Unicode, is_valid_domain}
use split_proxy.Splitting.Validation.DomainLaws.{
  IsDomain, IsDomain-Free, prefix, is_valid_domain_iff,
}
use split_proxy.Splitting.Domains.{with_subdomains}

star_dot : Text → Text
star_dot p = codes "*." ++ p

trim-star_dot : (p : Text) → trim p ≡ p → trim (codes "*." ++ p) ≡ codes "*." ++ p
trim-star_dot p e =
    trim-cons b'*' (b'.' ∷ p) (unfold is_space in refl)
      (trim-cons b'.' p (unfold is_space in refl) e)

module _ (u : Unicode) where
  -- A valid domain without a star stays valid behind `*.`.
  IsDomain-star_dot : (p : Text) → Free b'*' p → IsDomain u p → IsDomain u (codes "*." ++ p)
  IsDomain-star_dot p free d = elim (Bool-cases d.wild) [
    | inl wild ↦ absurd (star_first (d.spelled ∙ ap (λ w. prefix u w ++ join b'.' d.labels) wild))
    | inr plain ↦ record {
      wild = true;
      labels = d.labels;
      at_least_two = d.at_least_two;
      valid = d.valid;
      spelled =
          ap (λ t. b'*' ∷ b'.' ∷ t) (d.spelled ∙ ap (λ w. prefix u w ++ join b'.' d.labels) plain);
    }
  ]
    where
      star_first : {t : Text} → p ≡ b'*' ∷ t → ⊥
      star_first e = unfold includes in (cc (subst (λ s. Free b'*' s) e free))

  pub is_valid_domain-star_dot :
      (p : Text)
      → trim p ≡ p
      → Free b'*' p
      → is_valid_domain u p ≡ true
      → is_valid_domain u (codes "*." ++ p) ≡ true
  is_valid_domain-star_dot p t free h = (is_valid_domain_iff u (codes "*." ++ p)).1 (
      subst (IsDomain u) (sym (trim-star_dot p t))
        (IsDomain-star_dot p free (subst (IsDomain u) t ((is_valid_domain_iff u p).0 h))))

  -- A pattern with a star is not valid behind `*.`.
  star_dot-star :
      (p : Text) → trim p ≡ p → includes b'*' p ≡ true → is_valid_domain u (codes "*." ++ p) ≡ false
  star_dot-star p t star = elim (Bool-cases (is_valid_domain u (codes "*." ++ p))) [
    | inl valid ↦
        let d = (is_valid_domain_iff u (codes "*." ++ p)).0 valid in
        let free = IsDomain-Free u p (subst (IsDomain u) (trim-star_dot p t) d) in cc (star, free)
    | inr invalid ↦ invalid
  ]

  abbrev pub Valid : Text → Type 0
  Valid p = is_valid_domain u p ≡ true

  -- Trimmed patterns that are valid.
  abbrev pub Entered : List Text → Type 0
  Entered = All (λ p. (trim p ≡ p) × Valid p)

  -- Trimmed patterns that are valid stay valid when their subdomains are added, if none of them
  -- is a wildcard.
  pub with_subdomains-Valid :
      (include : Bool) (ps : List Text)
      → Entered ps
      → All (Free b'*') ps
      → All Valid (with_subdomains include ps)
  unfolding with_subdomains
  with_subdomains-Valid include [] h f = elim (Bool-cases include) [
    | inl e ↦ rw e tt
    | inr e ↦ rw e tt
  ]
  with_subdomains-Valid true (p ∷ ps) h f =
      (h.0.1, (is_valid_domain-star_dot p h.0.0 f.0 h.0.1, with_subdomains-Valid true ps h.1 f.1))
  with_subdomains-Valid false (p ∷ ps) h f = (h.0.1, with_subdomains-Valid false ps h.1 f.1)

  -- With subdomains included, the patterns that are sent are not all valid if the first one
  -- that was entered is trimmed and holds a star.
  pub with_subdomains-star :
      (p : Text) (ps : List Text)
      → trim p ≡ p
      → includes b'*' p ≡ true
      → ¬ All Valid (with_subdomains true (p ∷ ps))
  unfolding with_subdomains
  with_subdomains-star p ps t star h = cc (h.1.0, star_dot-star p t star)
