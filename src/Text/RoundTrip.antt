-- ===== src/Text/RoundTrip.antt =====
-- Decoding what `encodeURIComponent` and `URLSearchParams` have encoded.
use mathlib.Core.Option
use mathlib.Core.Option.{some_inj}
use split_proxy.Base.{
  ℕ, ◌+◌, ◌-◌, ◌*◌, ◌/◌, ◌%◌, ◌<◌, ◌≡◌, refl, ◌∙◌, ap, inl, inr, Bool, true, ◌&&◌, false, Text,
  some, List, [], ◌∷◌, ◌++◌, flat_map, any, All, arith, nat_beq, Bool-cases,
}
use split_proxy.Text.Unicode.{code_points, combine, is_surrogate, is_high, is_low}
use split_proxy.Text.Encoding.{hex, percent, uri_safe, bytes, encode_bytes, encode_uri_component}
use split_proxy.Text.Decoding.{unhex, outside, unescape, utf16, text_of_bytes, decode_uri_component}
use split_proxy.Text.Utf8.{IsByte, IsUnit, IsPoint, read_utf8-bytes, bytes-IsByte}

unhex-hex : (d : ℕ) → d < 16 → unhex (hex d) ≡ d
unhex-hex d h = ground arith

nibbles : (b : ℕ) → IsByte b → unhex (hex (b / 16)) * 16 + unhex (hex (b % 16)) ≡ b
nibbles b h = rw (unhex-hex (b / 16) (omega arith), unhex-hex (b % 16) (omega arith)) (omega arith)

-- What `safe` keeps is no percent sign.
abbrev pub KeepsEscapes : (ℕ → Bool) → Type 0
KeepsEscapes safe = (b : ℕ) → safe b ≡ true → nat_beq b b'%' ≡ false

pub unescape-percent :
    (safe : ℕ → Bool) (b : ℕ) (rest : Text)
    → KeepsEscapes safe
    → IsByte b
    → unescape outside (percent safe b ++ rest) ≡ Option.map (λ bs. b ∷ bs) (unescape outside rest)
unfolding unescape
unescape-percent safe b rest k h = elim (Bool-cases (safe b)) [
  | inl kept ↦ rw (kept, k b kept, unescape) refl
  | inr coded ↦ rw (coded, nibbles b h) refl
]

module _ (safe : ℕ → Bool) (k : KeepsEscapes safe) where
  unescape-flat_map :
      (bs : List ℕ) → All IsByte bs → unescape outside (flat_map (percent safe) bs) ≡ some bs
  unfolding unescape
  unescape-flat_map [] h = refl
  unescape-flat_map (b ∷ bs) h =
      unescape-percent safe b (flat_map (percent safe) bs) k h.0
      ∙ ap (Option.map (λ cs. b ∷ cs)) (unescape-flat_map bs h.1)

combine-IsPoint : (c : ℕ) (ps : List ℕ) → IsUnit c → All IsPoint ps → All IsPoint (combine c ps)
combine-IsPoint c [] h k = (omega arith, tt)
combine-IsPoint c (l ∷ ps) h k = elim (Bool-cases (is_high c && is_low l)) [
  | inl pair ↦ rw pair (ground arith, k.1)
  | inr lone ↦ rw lone (omega arith, k)
]

pub code_points-IsPoint : (s : Text) → All IsUnit s → All IsPoint (code_points s)
unfolding code_points
code_points-IsPoint [] h = tt
code_points-IsPoint (c ∷ s) h = combine-IsPoint c (code_points s) h.0 (code_points-IsPoint s h.1)

utf16_unit : (c : ℕ) → IsUnit c → utf16 c ≡ c ∷ []
unfolding utf16
utf16_unit c h = ground arith

utf16_pair :
    (c l : ℕ)
    → (is_high c && is_low l) ≡ true
    → utf16 (0x10000 + (c - 0xD800) * 0x400 + (l - 0xDC00)) ≡ c ∷ l ∷ []
unfolding utf16
utf16_pair c l h = ground arith

utf16-combine :
    (c : ℕ) (ps : List ℕ) → IsUnit c → flat_map utf16 (combine c ps) ≡ c ∷ flat_map utf16 ps
utf16-combine c [] h = rw (utf16_unit c h) refl
utf16-combine c (l ∷ ps) h = elim (Bool-cases (is_high c && is_low l)) [
  | inl pair ↦ rw (pair, utf16_pair c l pair, utf16_unit l (ground arith)) refl
  | inr lone ↦ rw (lone, utf16_unit c h) refl
]

utf16-code_points : (s : Text) → All IsUnit s → flat_map utf16 (code_points s) ≡ s
unfolding code_points
utf16-code_points [] h = refl
utf16-code_points (c ∷ s) h =
    utf16-combine c (code_points s) h.0 ∙ ap (λ t. c ∷ t) (utf16-code_points s h.1)

pub text_of_bytes-bytes : (s : Text) → All IsUnit s → text_of_bytes (bytes (code_points s)) ≡ some s
unfolding text_of_bytes
text_of_bytes-bytes s h =
    rw (read_utf8-bytes (code_points s) (code_points-IsPoint s h)) (ap some (utf16-code_points s h))

uri_safe-KeepsEscapes : KeepsEscapes uri_safe
uri_safe-KeepsEscapes b h = ground arith

decode-encode_bytes :
    (s : Text) → All IsUnit s → decode_uri_component (encode_bytes (bytes (code_points s))) ≡ some s
unfolding decode_uri_component encode_bytes Option.bind
decode-encode_bytes s h =
    rw (unescape-flat_map uri_safe uri_safe-KeepsEscapes _ (bytes-IsByte (code_points s)))
      (text_of_bytes-bytes s h)

-- What `encodeURIComponent` makes of a text decodes to that text.
pub decode-encode_uri_component :
    (s e : Text) → All IsUnit s → encode_uri_component s ≡ some e → decode_uri_component e ≡ some s
unfolding encode_uri_component
decode-encode_uri_component s e h k = elim (Bool-cases (any is_surrogate (code_points s))) [
  | inl lone ↦ cc (rw lone at k)
  | inr whole ↦ rw (← some_inj.0 (rw whole at k)) (decode-encode_bytes s h)
]
