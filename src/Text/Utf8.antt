-- ===== src/Text/Utf8.antt =====
-- Reading the bytes of UTF-8.
use mathlib.Core.Option
use mathlib.Core.Option.{some_inj}
use split_proxy.Base.{
  ℕ, suc, ◌+◌, ◌/◌, ◌%◌, ◌<◌, ◌≡◌, refl, ◌∙◌, ap, inl, inr, Option, some, List, [], ◌∷◌, ◌++◌, All,
  arith, ltb, Bool-cases,
}
use split_proxy.Text.Unicode.{utf8}
use split_proxy.Text.Encoding.{bytes}
use split_proxy.Text.Decoding.{trailing, first_bits, between, within, read_utf8}

abbrev pub IsByte : ℕ → Type 0
IsByte b = b < 0x100

abbrev pub IsUnit : ℕ → Type 0
IsUnit c = c < 0x10000

abbrev pub IsPoint : ℕ → Type 0
IsPoint p = p < 0x110000

-- The first byte of a sequence of two, three and four.
module _ (q : ℕ) where
  trailing_two : q < 0x20 → trailing (0xC0 + q) ≡ 1
  unfolding trailing
  trailing_two h = ground arith

  trailing_three : q < 0x10 → trailing (0xE0 + q) ≡ 2
  unfolding trailing
  trailing_three h = ground arith

  trailing_four : q < 0x8 → trailing (0xF0 + q) ≡ 3
  unfolding trailing
  trailing_four h = ground arith

  first_bits_two : q < 0x20 → first_bits (0xC0 + q) ≡ q
  unfolding first_bits
  first_bits_two h = ground arith

  first_bits_three : q < 0x10 → first_bits (0xE0 + q) ≡ q
  unfolding first_bits
  first_bits_three h = ground arith

  first_bits_four : q < 0x8 → first_bits (0xF0 + q) ≡ q
  unfolding first_bits
  first_bits_four h = ground arith

module _ (p : ℕ) (rest : List ℕ) where
  abbrev Reads : List ℕ → Type 0
  Reads bs = read_utf8 between (bs ++ rest) ≡ Option.map (λ ps. p ∷ ps) (read_utf8 between rest)

  abbrev again : ℕ → Option (List ℕ)
  again q = Option.map (λ ps. q ∷ ps) (read_utf8 between rest)

  read_lead :
      (b n q : ℕ) (bs : List ℕ)
      → trailing b ≡ suc n
      → first_bits b ≡ q
      → read_utf8 between (b ∷ bs) ≡ read_utf8 (within n q) bs
  unfolding read_utf8
  read_lead b n q bs h e = rw (h, e, read_utf8) refl

  trailing_one : p < 0x80 → trailing p ≡ 0
  unfolding trailing
  trailing_one h = ground arith

  first_bits_one : p < 0x80 → first_bits p ≡ p
  unfolding first_bits
  first_bits_one h = ground arith

  read_one : p < 0x80 → Reads (p ∷ [])
  unfolding read_utf8
  read_one h = rw (trailing_one h, first_bits_one h, read_utf8) refl

  read_two : p < 0x800 → Reads ((0xC0 + p / 0x40 % 0x20) ∷ (0x80 + p % 0x40) ∷ [])
  unfolding read_utf8
  read_two h =
      read_lead (0xC0 + p / 0x40 % 0x20) 0 (p / 0x40 % 0x20) ((0x80 + p % 0x40) ∷ rest)
        (trailing_two (p / 0x40 % 0x20) (omega arith))
        (first_bits_two (p / 0x40 % 0x20) (omega arith))
      ∙ ap again (omega arith)

  read_three :
      p < 0x10000
      → Reads ((0xE0 + p / 0x1000 % 0x10) ∷ (0x80 + p / 0x40 % 0x40) ∷ (0x80 + p % 0x40) ∷ [])
  unfolding read_utf8
  read_three h =
      read_lead (0xE0 + p / 0x1000 % 0x10) 1 (p / 0x1000 % 0x10)
        ((0x80 + p / 0x40 % 0x40) ∷ (0x80 + p % 0x40) ∷ rest)
        (trailing_three (p / 0x1000 % 0x10) (omega arith))
        (first_bits_three (p / 0x1000 % 0x10) (omega arith))
      ∙ ap again (omega arith)

  read_four :
      IsPoint p
      → Reads (
          (0xF0 + p / 0x40000 % 0x8)
          ∷ (0x80 + p / 0x1000 % 0x40)
          ∷ (0x80 + p / 0x40 % 0x40)
          ∷ (0x80 + p % 0x40)
          ∷ [])
  unfolding read_utf8
  read_four h =
      read_lead (0xF0 + p / 0x40000 % 0x8) 2 (p / 0x40000 % 0x8)
        ((0x80 + p / 0x1000 % 0x40) ∷ (0x80 + p / 0x40 % 0x40) ∷ (0x80 + p % 0x40) ∷ rest)
        (trailing_four (p / 0x40000 % 0x8) (omega arith))
        (first_bits_four (p / 0x40000 % 0x8) (omega arith))
      ∙ ap again (omega arith)

  read_utf8-utf8 : IsPoint p → Reads (utf8 p)
  unfolding utf8
  read_utf8-utf8 h = elim (Bool-cases (ltb p 0x80)) [
    | inl one ↦ rw one (read_one (ground arith))
    | inr more ↦ elim (Bool-cases (ltb p 0x800)) [
      | inl two ↦ rw (more, two) (read_two (ground arith))
      | inr longer ↦ elim (Bool-cases (ltb p 0x10000)) [
        | inl three ↦ rw (more, longer, three) (read_three (ground arith))
        | inr four ↦ rw (more, longer, four) (read_four h)
      ]
    ]
  ]

pub read_utf8-bytes : (ps : List ℕ) → All IsPoint ps → read_utf8 between (bytes ps) ≡ some ps
unfolding bytes read_utf8
read_utf8-bytes [] h = refl
read_utf8-bytes (p ∷ ps) h =
    read_utf8-utf8 p (bytes ps) h.0 ∙ ap (Option.map (λ qs. p ∷ qs)) (read_utf8-bytes ps h.1)

utf8-IsByte : (p : ℕ) → All IsByte (utf8 p)
unfolding utf8
utf8-IsByte p = ground arith

pub All-append {ℓ κ} :
    {A : Type ℓ} (P : A → Type κ) (xs ys : List A) → All P xs → All P ys → All P (xs ++ ys)
All-append P [] ys h k = k
All-append P (x ∷ xs) ys h k = (h.0, All-append P xs ys h.1 k)

pub bytes-IsByte : (ps : List ℕ) → All IsByte (bytes ps)
unfolding bytes
bytes-IsByte [] = tt
bytes-IsByte (p ∷ ps) = All-append IsByte (utf8 p) (bytes ps) (utf8-IsByte p) (bytes-IsByte ps)
