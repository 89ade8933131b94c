-- ===== src/Text/Digits.antt =====
-- What the digits of a number read as, which shows that the fuel of `string_of_nat` is enough.
use native.Mathlib.Nat.{div-add-mod}
use split_proxy.Base.{
  ℕ, zero, suc, ◌+◌, ◌-◌, ◌*◌, ◌/◌, ◌%◌, ◌<◌, ◌≡◌, ap, ◌∙◌, false, Text, [], ◌∷◌, arith, ltb,
  Bool-cases, inl, inr,
}
use split_proxy.Text.Encoding.{digits_of, string_of_nat}

-- The number that decimal digits stand for behind the digits of `acc`.
unfoldable pub read_from : ℕ → Text → ℕ
read_from acc [] = acc
read_from acc (c ∷ s) = read_from (acc * 10 + (c - b'0')) s

tenth-lt : (fuel n : ℕ) → n < suc fuel → ltb n 10 ≡ false → n / 10 < fuel
tenth-lt fuel n h big = grind (arith, div-add-mod n 10)

read_from-digits_of :
    (fuel n : ℕ) (s : Text) → n < fuel → read_from 0 (digits_of fuel n s) ≡ read_from n s
unfolding digits_of read_from
read_from-digits_of zero n s h = absurd (omega arith)
read_from-digits_of (suc fuel) n s h = elim (Bool-cases (ltb n 10)) [
  | inl one ↦ rw one (ap (λ k. read_from k s) (omega arith))
  | inr big ↦ rw big (
      read_from-digits_of fuel (n / 10) ((b'0' + n % 10) ∷ s) (tenth-lt fuel n h big)
      ∙ ap (λ k. read_from k s) (grind (arith, div-add-mod n 10)))
]

-- `String(n)` reads as `n`.
pub read_from-string_of_nat : (n : ℕ) → read_from 0 (string_of_nat n) ≡ n
unfolding string_of_nat read_from
read_from-string_of_nat n = read_from-digits_of (suc n) n [] (omega arith)
