-- ===== src/Text/Decoding.antt =====
-- What `encodeURIComponent` and `URLSearchParams` are read back by: percent-decoding, UTF-8, UTF-16.
use mathlib.Core.Option
use split_proxy.Base.{
  ℕ, zero, suc, ◌+◌, ◌-◌, ◌*◌, ◌/◌, ◌%◌, true, false, Text, Option, none, some, List, [], ◌∷◌, map,
  flat_map, leb, ltb, nat_beq, if◌then◌else◌,
}
use split_proxy.Text.Defs.{split}

-- The value of an upper-case hexadecimal digit.
abbrev pub unhex : ℕ → ℕ
unhex c = if leb c b'9' then c - b'0' else c - b'A' + 10

-- What has been read of an escape.
pub data Escape : Type 0 where
  outside after_percent : Escape
  after_digit : ℕ → Escape

-- The bytes of a text with escapes; `none` where the text ends inside of an escape.
unfoldable pub unescape : Escape → Text → Option (List ℕ)
unescape outside [] = some []
unescape after_percent [] = none
unescape (after_digit d) [] = none
unescape outside (c ∷ s) = elim (nat_beq c b'%') [
  | true ↦ unescape after_percent s
  | false ↦ Option.map (λ bs. c ∷ bs) (unescape outside s)
]
unescape after_percent (c ∷ s) = unescape (after_digit c) s
unescape (after_digit d) (c ∷ s) =
    Option.map (λ bs. (unhex d * 16 + unhex c) ∷ bs) (unescape outside s)

-- How many continuation bytes follow a first byte, and the bits that it brings.
unfoldable pub trailing : ℕ → ℕ
trailing b = if ltb b 0x80 then 0 else if ltb b 0xE0 then 1 else if ltb b 0xF0 then 2 else 3

unfoldable pub first_bits : ℕ → ℕ
first_bits b =
    if ltb b 0x80
    then b
    else if ltb b 0xE0
    then b - 0xC0
    else if ltb b 0xF0
    then b - 0xE0
    else b - 0xF0

-- What has been read of a code point: its bits so far, with `n` bytes to come behind the next one.
pub data Pending : Type 0 where
  between : Pending
  within : ℕ → ℕ → Pending

-- The code points of bytes of UTF-8; `none` where the bytes end inside of a code point.
unfoldable pub read_utf8 : Pending → List ℕ → Option (List ℕ)
read_utf8 between [] = some []
read_utf8 (within n p) [] = none
read_utf8 between (b ∷ bs) = elim (trailing b) [
  | zero ↦ Option.map (λ ps. first_bits b ∷ ps) (read_utf8 between bs)
  | suc n ↦ read_utf8 (within n (first_bits b)) bs
]
read_utf8 (within zero p) (b ∷ bs) =
    Option.map (λ ps. (p * 0x40 + (b - 0x80)) ∷ ps) (read_utf8 between bs)
read_utf8 (within (suc n) p) (b ∷ bs) = read_utf8 (within n (p * 0x40 + (b - 0x80))) bs

-- The code units of a code point.
unfoldable pub utf16 : ℕ → Text
utf16 p =
    if ltb p 0x10000
    then p ∷ []
    else (0xD800 + (p - 0x10000) / 0x400) ∷ (0xDC00 + (p - 0x10000) % 0x400) ∷ []

-- The text behind bytes of UTF-8.
unfoldable pub text_of_bytes : List ℕ → Option Text
text_of_bytes bs = Option.map (λ ps. flat_map utf16 ps) (read_utf8 between bs)

-- `decodeURIComponent(s)`
unfoldable pub decode_uri_component : Text → Option Text
decode_uri_component s = Option.bind (unescape outside s) text_of_bytes

-- A name or a value of a query, where `+` stands for a space.
unfoldable pub form_decode : Text → Option Text
form_decode s = decode_uri_component (map (λ c. if nat_beq c b'+' then 32 else c) s)

-- The parts before and behind the first `=`.
unfoldable pub split_pair : Text → Text × Text
split_pair [] = ([], [])
split_pair (c ∷ s) =
    let rest = split_pair s in if nat_beq c b'=' then ([], s) else (c ∷ rest.0, rest.1)

abbrev pub both : Option Text → Option Text → Option (Text × Text)
both none v = none
both (some k) v = Option.map (λ t. (k, t)) v

unfoldable pub read_pair : Text → Option (Text × Text)
read_pair s = let (k, v) = split_pair s in both (form_decode k) (form_decode v)

abbrev pub onto {ℓ} : {A : Type ℓ} → Option A → Option (List A) → Option (List A)
onto none rest = none
onto (some a) rest = Option.map (λ xs. a ∷ xs) rest

-- The pairs of a query, without the empty parts.
unfoldable pub read_pairs : List Text → Option (List (Text × Text))
read_pairs [] = some []
read_pairs ([] ∷ ss) = read_pairs ss
read_pairs ((c ∷ s) ∷ ss) = onto (read_pair (c ∷ s)) (read_pairs ss)

-- `new URLSearchParams(query)`
unfoldable pub read_query : Text → Option (List (Text × Text))
read_query s = read_pairs (split b'&' s)
