-- ===== src/Text/Ascii.antt =====
-- ASCII texts, such as the digits of a number, have no surrogates.
use split_proxy.Base.{
  ℕ, zero, suc, ℤ, pos, negsuc, ◌+◌, ◌/◌, ◌%◌, ◌<◌, ◌≡◌, refl, ◌∙◌, ap, inl, inr, false, Text, List,
  [], ◌∷◌, any, All, arith, ltb, Bool-cases,
}
use split_proxy.Text.Unicode.{code_points, combine, is_surrogate}
use split_proxy.Text.Encoding.{digits_of, string_of_nat, string_of}
use split_proxy.Text.Utf8.{IsUnit}
use split_proxy.Text.Queries.{IsWhole}

abbrev pub IsAscii : Text → Type 0
IsAscii s = All (λ c. c < 0x80) s

IsAscii-units : (s : Text) → IsAscii s → All IsUnit s
IsAscii-units [] h = tt
IsAscii-units (c ∷ s) h = (omega arith, IsAscii-units s h.1)

combine-ascii : (c : ℕ) (ps : List ℕ) → c < 0x80 → combine c ps ≡ c ∷ ps
combine-ascii c [] h = refl
combine-ascii c (p ∷ ps) h = ground arith

code_points-ascii : (s : Text) → IsAscii s → code_points s ≡ s
unfolding code_points
code_points-ascii [] h = refl
code_points-ascii (c ∷ s) h =
    combine-ascii c (code_points s) h.0 ∙ ap (λ t. c ∷ t) (code_points-ascii s h.1)

any-is_surrogate : (s : Text) → IsAscii s → any is_surrogate s ≡ false
any-is_surrogate [] h = refl
any-is_surrogate (c ∷ s) h = ground (arith, any-is_surrogate s)

pub IsAscii-IsWhole : (s : Text) → IsAscii s → IsWhole s
IsAscii-IsWhole s h = (IsAscii-units s h, rw (code_points-ascii s h) (any-is_surrogate s h))

digits_of-IsAscii : (fuel n : ℕ) (s : Text) → IsAscii s → IsAscii (digits_of fuel n s)
unfolding digits_of
digits_of-IsAscii zero n s h = h
digits_of-IsAscii (suc fuel) n s h = elim (Bool-cases (ltb n 10)) [
  | inl one ↦ rw one (ground arith, h)
  | inr big ↦ rw big (digits_of-IsAscii fuel (n / 10) ((b'0' + n % 10) ∷ s) (omega arith, h))
]

pub string_of_nat-IsAscii : (n : ℕ) → IsAscii (string_of_nat n)
unfolding string_of_nat
string_of_nat-IsAscii n = digits_of-IsAscii (suc n) n [] tt

pub string_of-IsAscii : (n : ℤ) → IsAscii (string_of n)
unfolding string_of
string_of-IsAscii (pos n) = string_of_nat-IsAscii n
string_of-IsAscii (negsuc n) = (omega arith, string_of_nat-IsAscii (suc n))
