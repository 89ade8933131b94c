-- ===== src/Splitting/Validation/Cidr.antt =====
-- `isValidCidr` of SplittingPage.tsx.
use split_proxy.Base.{
  ℕ, ◌+◌, ◌-◌, ◌*◌, Bool, false, ◌&&◌, Text, List, [], ◌∷◌, Option, none, some, leb, nat_beq, every,
  if◌then◌else◌,
}
use split_proxy.Text.{trim, split}
use split_proxy.Splitting.Validation.Matcher.{Regex, class, eps, seq, alt, full_match}

abbrev pub is_digit : ℕ → Bool
is_digit c = leb b'0' c && leb c b'9'

abbrev pub char : ℕ → Regex
char x = class (λ c. nat_beq c x)

-- `\d`, `\d{1,3}`
abbrev pub digit : Regex
digit = class is_digit

abbrev pub one_to_three : Regex
one_to_three = seq digit (alt (seq digit (alt digit eps)) eps)

-- `(\d{1,3}\.)`
abbrev pub octet_dot : Regex
octet_dot = seq one_to_three (char b'.')

-- `(\d|[12]\d|3[0-2])`
abbrev pub prefix_length : Regex
prefix_length = alt digit (
    alt (seq (class (λ c. leb b'1' c && leb c b'2')) digit)
      (seq (char b'3') (class (λ c. leb b'0' c && leb c b'2'))))

-- `(\d{1,3}\.){3}\d{1,3}\/(\d|[12]\d|3[0-2])`
unfoldable pub cidr_regex : Regex
cidr_regex =
    seq octet_dot (seq octet_dot (seq octet_dot (seq one_to_three (seq (char b'/') prefix_length))))

abbrev pub number_from : ℕ → Text → Option ℕ
number_from acc [] = some acc
number_from acc (c ∷ s) =
    let rest = number_from (acc * 10 + (c - b'0')) s in if is_digit c then rest else none

-- `Number(part)` of decimal digits; `none` stands for what other texts give, which the regular
-- expression keeps away.
unfoldable pub number : Text → Option ℕ
number part = number_from 0 part

unfoldable pub in_octet : Text → Bool
in_octet part = elim (number part) [ none ↦ false | some n ↦ leb 0 n && leb n 255 ]

abbrev pub first_part : List Text → Text
first_part [] = []
first_part (p ∷ ps) = p

unfoldable pub is_valid_cidr : Text → Bool
is_valid_cidr value =
    let cidr = trim value in
    let ip = first_part (split b'/' cidr) in
    if full_match cidr_regex cidr then every in_octet (split b'.' ip) else false
