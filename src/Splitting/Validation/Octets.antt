-- ===== src/Splitting/Validation/Octets.antt =====
-- The parts of a CIDR range: what their expressions describe, and the numbers that they spell.
use split_proxy.Base.{
  ℕ, ◌+◌, ◌-◌, ◌*◌, ◌/◌, ◌%◌, ◌≤◌, ◌≡◌, ◌↔◌, inl, inr, refl, ◌∙◌, true, false, Text, [], ◌∷◌, ◌++◌,
  some, All, length, arith, ltb, if◌then◌else◌, Bool-cases,
}
use split_proxy.Text.{includes}
use split_proxy.Text.Laws.{Free, join}
use split_proxy.Splitting.Validation.{
  is_digit, one_to_three, prefix_length, number, number_from, in_octet,
}
use split_proxy.Splitting.Validation.Language.{Language}

-- One to three decimal digits.
abbrev pub IsDigits : Text → Type 0
IsDigits s = (1 ≤ length s) × (length s ≤ 3) × All (λ c. is_digit c ≡ true) s

-- The number that decimal digits spell.
abbrev value_from : ℕ → Text → ℕ
value_from acc [] = acc
value_from acc (c ∷ s) = value_from (acc * 10 + (c - b'0')) s

-- 0 to 255 in one to three digits; leading zeros are allowed.
pub record IsOctet (s : Text) : Type 0 where
  pub digits : IsDigits s
  pub small : value_from 0 s ≤ 255

-- A number below 100 in decimal digits, without a leading zero.
abbrev pub decimal : ℕ → Text
decimal n = if ltb n 10 then (b'0' + n) ∷ [] else (b'0' + n / 10) ∷ (b'0' + n % 10) ∷ []

pub record IsCidr (s : Text) : Type 0 where
  pub a : Text
  pub b : Text
  pub c : Text
  pub d : Text
  pub bits : ℕ
  pub octets : All IsOctet (a ∷ b ∷ c ∷ d ∷ [])
  pub in_range : bits ≤ 32
  pub spelled : s ≡ join b'.' (a ∷ b ∷ c ∷ d ∷ []) ++ b'/' ∷ decimal bits

pub one_to_three-IsDigits : (s : Text) → Language one_to_three s → IsDigits s
one_to_three-IsDigits s (x, y, e, (c, ex, pc), inr ey) =
    rw (e, ex, ey) (omega arith, omega arith, (pc, tt))
one_to_three-IsDigits s (x, y, e, (c, ex, pc), inl (v, w, ev, (c', ew, pc'), inr er)) =
    rw (e, ex, ev, ew, er) (omega arith, omega arith, (pc, (pc', tt)))
one_to_three-IsDigits s (x, y, e, (c, ex, pc), inl (v, w, ev, (c', ew, pc'), inl (c'', er, pc''))) =
    rw (e, ex, ev, ew, er) (omega arith, omega arith, (pc, (pc', (pc'', tt))))

pub IsDigits-one_to_three : (s : Text) → IsDigits s → Language one_to_three s
IsDigits-one_to_three [] h = absurd (omega arith)
IsDigits-one_to_three (a ∷ []) (_, _, (pa, _)) = (a ∷ [], [], refl, (a, refl, pa), inr refl)
IsDigits-one_to_three (a ∷ b ∷ []) (_, _, (pa, (pb, _))) =
    (a ∷ [], b ∷ [], refl, (a, refl, pa), inl (b ∷ [], [], refl, (b, refl, pb), inr refl))
IsDigits-one_to_three (a ∷ b ∷ c ∷ []) (_, _, (pa, (pb, (pc, _)))) = (
  a ∷ [],
  b ∷ c ∷ [],
  refl,
  (a, refl, pa),
  inl (b ∷ [], c ∷ [], refl, (b, refl, pb), inl (c, refl, pc)),
)
IsDigits-one_to_three (a ∷ b ∷ c ∷ d ∷ s) h = absurd (omega arith)

pub prefix_length-decimal :
    (s : Text) → Language prefix_length s → (n : ℕ) × (n ≤ 32) × (s ≡ decimal n)
prefix_length-decimal s (inl (c, e, p)) = (c - b'0', ground arith, e ∙ ground arith)
prefix_length-decimal s (inr (inl (x, y, e, (a, ex, pa), (c, ey, pc)))) =
    ((a - b'0') * 10 + (c - b'0'), ground arith, rw (e, ex, ey) (ground arith))
prefix_length-decimal s (inr (inr (x, y, e, (a, ex, pa), (c, ey, pc)))) =
    (30 + (c - b'0'), ground arith, rw (e, ex, ey) (ground arith))

pub decimal-prefix_length : (n : ℕ) → n ≤ 32 → Language prefix_length (decimal n)
decimal-prefix_length n h = elim (Bool-cases (ltb n 10)) [
  | inl one ↦ inl (b'0' + n, ground arith, ground arith)
  | inr two ↦ elim (Bool-cases (ltb n 30)) [
    | inl below ↦ inr (
        inl (
          (b'0' + n / 10) ∷ [],
          (b'0' + n % 10) ∷ [],
          ground arith,
          (b'0' + n / 10, refl, ground arith),
          (b'0' + n % 10, refl, ground arith),
        ))
    | inr rest ↦ inr (
        inr (
          (b'0' + n / 10) ∷ [],
          (b'0' + n % 10) ∷ [],
          ground arith,
          (b'0' + n / 10, refl, ground arith),
          (b'0' + n % 10, refl, ground arith),
        ))
  ]
]

number_from-value_from :
    (acc : ℕ) (s : Text)
    → All (λ c. is_digit c ≡ true) s
    → number_from acc s ≡ some (value_from acc s)
number_from-value_from acc [] h = refl
number_from-value_from acc (c ∷ s) h = rw h.0 (number_from-value_from (acc * 10 + (c - b'0')) s h.1)

pub in_octet_iff : (s : Text) → IsDigits s → (in_octet s ≡ true) ↔ (value_from 0 s ≤ 255)
unfolding in_octet number
in_octet_iff s h = (
  λ e. ground (arith, number_from-value_from 0 s h.2),
  λ e. ground (arith, number_from-value_from 0 s h.2),
)

pub IsDigits-Free :
    (x : ℕ) (s : Text) → is_digit x ≡ false → All (λ c. is_digit c ≡ true) s → Free x s
unfolding includes
IsDigits-Free x [] out h = refl
IsDigits-Free x (c ∷ s) out h = ground (arith, IsDigits-Free x s out h.1)
