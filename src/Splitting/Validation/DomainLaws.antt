-- ===== src/Splitting/Validation/DomainLaws.antt =====
-- What `isValidDomain` accepts, stated without its code: the labels of a domain name.
use split_proxy.Base.{
  ℕ, ◌≤◌, ◌<◌, ◌≡◌, ◌≢◌, ◌↔◌, refl, sym, ap, subst, ◌∙◌, Bool, true, false, Text, List, [], ◌∷◌,
  ◌++◌, All, every, length, arith, if◌then◌else◌, Bool-cases, inl, inr,
}
use split_proxy.Text.{code_points, codes, trim, starts_with, includes, slice, split}
use split_proxy.Text.Laws.{Free, join, join-split, join-Free, starts_with_one, ends_with_one}
use split_proxy.Splitting.Validation.{
  Unicode, in_label, matches_label, is_valid_label, is_valid_domain,
}
use split_proxy.Splitting.Validation.Labels.{
  every_iff, code_points-Free, every-other_than, combine-ne-nil, wildcard-slice, wildcard_of_Free,
  join_two-ne-nil, split-join_two,
}

module _ (u : Unicode) where
  -- A label of 1 to 63 code units, of letters, numbers and hyphens, with no hyphen at an end.
  pub record IsLabel (label : Text) : Type 0 where
    pub not_empty : 1 ≤ length label
    pub short : length label ≤ 63
    pub no_hyphen_first : (t : Text) → label ≢ b'-' ∷ t
    pub no_hyphen_last : (t : Text) → label ≢ t ++ b'-' ∷ []
    pub characters : All (λ p. in_label u p ≡ true) (code_points label)

  matches_label_iff :
      (label : Text)
      → 1 ≤ length label
      → (matches_label u label ≡ true) ↔ All (λ p. in_label u p ≡ true) (code_points label)
  unfolding matches_label code_points
  matches_label_iff [] h = absurd (omega arith)
  matches_label_iff (c ∷ s) h = rw (combine-ne-nil c (code_points s)) (every_iff (in_label u) _)

  is_valid_label_iff : (label : Text) → (is_valid_label u label ≡ true) ↔ IsLabel label
  unfolding is_valid_label
  is_valid_label_iff label = (
    λ h. record {
      not_empty = ground arith;
      short = ground arith;
      no_hyphen_first = (starts_with_one b'-' label).0 (ground arith);
      no_hyphen_last = (ends_with_one b'-' label).0 (ground arith);
      characters = (matches_label_iff label (ground arith)).0 (ground arith);
    },
    λ l. ground (
      arith,
      (starts_with_one b'-' label).1 l.no_hyphen_first,
      (ends_with_one b'-' label).1 l.no_hyphen_last,
      (matches_label_iff label l.not_empty).1 l.characters,
    ),
  )

  -- A label holds no dot and no star.
  IsLabel-Free :
      (x : ℕ) (label : Text) → x < 0xD800 → in_label u x ≡ false → IsLabel label → Free x label
  IsLabel-Free x label lt out l =
      code_points-Free x label lt
        (every-other_than (in_label u) x (code_points label) out l.characters)

  All-IsLabel : (labels : List Text) → (every (is_valid_label u) labels ≡ true) ↔ All IsLabel labels
  All-IsLabel [] = (λ h. tt, λ h. refl)
  All-IsLabel (l ∷ ls) = (
    λ h. ((is_valid_label_iff l).0 (ground arith), (All-IsLabel ls).0 (ground arith)),
    λ h. rw ((is_valid_label_iff l).1 h.0) ((All-IsLabel ls).1 h.1),
  )

  All-Free :
      (x : ℕ) (labels : List Text)
      → x < 0xD800
      → in_label u x ≡ false
      → All IsLabel labels
      → All (Free x) labels
  All-Free x [] lt out h = tt
  All-Free x (l ∷ ls) lt out h = (IsLabel-Free x l lt out h.0, All-Free x ls lt out h.1)

  abbrev pub prefix : Bool → Text
  prefix wild = if wild then codes "*." else []

  -- Two or more labels with dots between them, perhaps behind `*.`.
  pub record IsDomain (domain : Text) : Type 0 where
    pub wild : Bool
    pub labels : List Text
    pub at_least_two : 2 ≤ length labels
    pub valid : All IsLabel labels
    pub spelled : domain ≡ prefix wild ++ join b'.' labels

  is_valid_domain-IsDomain : (v : Text) → is_valid_domain u v ≡ true → IsDomain (trim v)
  unfolding is_valid_domain
  is_valid_domain-IsDomain v h = elim (Bool-cases (starts_with (codes "*.") (trim v))) [
    | inl wild ↦ record {
      wild = true;
      labels = split b'.' (slice 2 (trim v));
      at_least_two = ground arith;
      valid = (All-IsLabel _).0 (ground arith);
      spelled =
          wildcard-slice (trim v) wild
          ∙ ap (λ t. b'*' ∷ b'.' ∷ t) (sym (join-split b'.' (slice 2 (trim v))));
    }
    | inr plain ↦ record {
      wild = false;
      labels = split b'.' (trim v);
      at_least_two = ground arith;
      valid = (All-IsLabel _).0 (ground arith);
      spelled = sym (join-split b'.' (trim v));
    }
  ]

  IsDomain-is_valid_domain :
      (wild : Bool) (v : Text) (labels : List Text)
      → 2 ≤ length labels
      → All IsLabel labels
      → trim v ≡ prefix wild ++ join b'.' labels
      → is_valid_domain u v ≡ true
  unfolding is_valid_domain starts_with slice
  IsDomain-is_valid_domain true v labels two valid e =
      let parts =
        split-join_two labels two
          (All-Free b'.' labels (omega arith) (ground (arith, u.dot_is_neither)) valid) in
      rw (e, parts, (All-IsLabel labels).1 valid) (ground arith)
  IsDomain-is_valid_domain false v labels two valid e =
      let parts =
        split-join_two labels two
          (All-Free b'.' labels (omega arith) (ground (arith, u.dot_is_neither)) valid) in
      let free =
        join-Free b'*' b'.' labels refl
          (All-Free b'*' labels (omega arith) (ground (arith, u.star_is_neither)) valid) in
      rw e (
        ground (
          arith,
          parts,
          (All-IsLabel labels).1 valid,
          join_two-ne-nil labels two,
          wildcard_of_Free (join b'.' labels) free,
          free,
        ))

  -- Behind `*.` a domain name holds no other star.
  pub IsDomain-Free : (p : Text) → IsDomain (codes "*." ++ p) → Free b'*' p
  unfolding includes slice join
  IsDomain-Free p d =
      let free =
        join-Free b'*' b'.' d.labels refl
          (All-Free b'*' d.labels (omega arith) (ground (arith, u.star_is_neither)) d.valid) in
      elim (Bool-cases d.wild) [
        | inl wild ↦
            subst (Free b'*')
              (sym (ap (slice 2) (d.spelled ∙ ap (λ w. prefix w ++ join b'.' d.labels) wild))) free
        | inr plain ↦ absurd (
            unfold includes in
            cc (
              subst (Free b'*') (sym (d.spelled ∙ ap (λ w. prefix w ++ join b'.' d.labels) plain))
                free))
      ]

  -- A text is accepted exactly when it is, without the white space around it, a domain name: two
  -- or more labels with dots between them, perhaps behind `*.`, each of 1 to 63 code units, of
  -- letters, numbers and hyphens, and with no hyphen at an end.
  pub is_valid_domain_iff : (v : Text) → (is_valid_domain u v ≡ true) ↔ IsDomain (trim v)
  is_valid_domain_iff v = (
    is_valid_domain-IsDomain v,
    λ d. IsDomain-is_valid_domain d.wild v d.labels d.at_least_two d.valid d.spelled,
  )
