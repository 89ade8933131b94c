-- ===== src/Splitting/Validation/Domain.antt =====
-- `isValidDomain` of SplittingPage.tsx. The Unicode tables behind `\p{L}` and `\p{N}` belong to the
-- language's runtime and are a parameter.
use split_proxy.Base.{
  ℕ, ◌≡◌, Bool, false, not, ◌&&◌, ◌||◌, Text, length, every, ltb, leb, nat_beq, if◌then◌else◌,
}
use split_proxy.Text.{code_points, codes, trim, starts_with, ends_with, includes, slice, split}

-- `[\p{L}\p{N}]`: the letters and numbers of Unicode. Neither `.` nor `*` is one.
pub record Unicode : Type 0 where
  pub letter_or_number : ℕ → Bool
  pub dot_is_neither : letter_or_number b'.' ≡ false
  pub star_is_neither : letter_or_number b'*' ≡ false

module _ (u : Unicode) where
  abbrev pub in_label : ℕ → Bool
  in_label p = u.letter_or_number p || nat_beq p b'-'

  -- `/^[\p{L}\p{N}-]+$/u.test(label)`
  unfoldable pub matches_label : Text → Bool
  matches_label label =
      let ps = code_points label in not (nat_beq (length ps) 0) && every in_label ps

  unfoldable pub is_valid_label : Text → Bool
  is_valid_label label =
      leb 1 (length label)
      && leb (length label) 63
      && not (starts_with (codes "-") label)
      && not (ends_with (codes "-") label)
      && matches_label label

  unfoldable pub is_valid_domain : Text → Bool
  is_valid_domain value =
      let domain = trim value in
      let is_wildcard = starts_with (codes "*.") domain in
      let without_wildcard = if is_wildcard then slice 2 domain else domain in
      let labels = split b'.' without_wildcard in
      if nat_beq (length domain) 0
      then false
      else if includes b'*' domain && not is_wildcard
      then false
      else if ltb (length labels) 2
      then false
      else every is_valid_label labels
