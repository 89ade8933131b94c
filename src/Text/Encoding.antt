-- ===== src/Text/Encoding.antt =====
-- `String(n)`, `encodeURIComponent` and `URLSearchParams` of the platform.
use split_proxy.Base.{
  ℕ, zero, suc, ℤ, pos, negsuc, ◌+◌, ◌-◌, ◌/◌, ◌%◌, Bool, ◌&&◌, ◌||◌, Text, Option, none, some,
  List, [], ◌∷◌, ◌++◌, map, flat_map, any, leb, ltb, nat_beq, if◌then◌else◌,
}
use split_proxy.Text.Unicode.{code_points, is_surrogate, utf8}

-- The decimal digits of `n`; a number has fewer digits than `n + 1`, which is the fuel.
unfoldable pub digits_of : ℕ → ℕ → Text → Text
digits_of zero n acc = acc
digits_of (suc fuel) n acc =
    let rest = digits_of fuel (n / 10) ((b'0' + n % 10) ∷ acc) in
    if ltb n 10 then (b'0' + n) ∷ acc else rest

unfoldable pub string_of_nat : ℕ → Text
string_of_nat n = digits_of (suc n) n []

unfoldable pub string_of : ℤ → Text
string_of (pos n) = string_of_nat n
string_of (negsuc n) = b'-' ∷ string_of_nat (suc n)

-- An upper-case hexadecimal digit.
abbrev pub hex : ℕ → ℕ
hex d = if ltb d 10 then b'0' + d else b'A' + (d - 10)

abbrev pub is_alphanumeric : ℕ → Bool
is_alphanumeric c = leb b'0' c && leb c b'9' || leb b'A' c && leb c b'Z' || leb b'a' c && leb c b'z'

-- One byte, kept if it is safe and written `%XX` otherwise.
abbrev pub percent : (ℕ → Bool) → ℕ → Text
percent safe b = if safe b then b ∷ [] else b'%' ∷ hex (b / 16) ∷ hex (b % 16) ∷ []

-- `A-Z a-z 0-9 - _ . ! ~ * ' ( )`
abbrev pub uri_safe : ℕ → Bool
uri_safe c =
    is_alphanumeric c
    || nat_beq c b'-'
    || nat_beq c b'_'
    || nat_beq c b'.'
    || nat_beq c b'!'
    || nat_beq c b'~'
    || nat_beq c b'*'
    || nat_beq c 39
    || nat_beq c b'('
    || nat_beq c b')'

unfoldable pub bytes : List ℕ → List ℕ
bytes ps = flat_map utf8 ps

unfoldable pub encode_bytes : List ℕ → Text
encode_bytes bs = flat_map (percent uri_safe) bs

-- `encodeURIComponent(s)`; it throws on a lone surrogate.
unfoldable pub encode_uri_component : Text → Option Text
encode_uri_component s =
    if any is_surrogate (code_points s) then none else some (encode_bytes (bytes (code_points s)))

-- `A-Z a-z 0-9 * - . _`
abbrev pub form_safe : ℕ → Bool
form_safe c =
    is_alphanumeric c || nat_beq c b'*' || nat_beq c b'-' || nat_beq c b'.' || nat_beq c b'_'

-- A byte of a form: a space becomes `+`.
abbrev pub form_byte : ℕ → Text
form_byte b = if nat_beq b 32 then b'+' ∷ [] else percent form_safe b

-- A lone surrogate is replaced.
unfoldable pub form_encode : Text → Text
form_encode s =
    flat_map form_byte (bytes (map (λ p. if is_surrogate p then 0xFFFD else p) (code_points s)))

-- `params.toString()`
unfoldable pub params_to_string : List (Text × Text) → Text
params_to_string [] = []
params_to_string ((k, v) ∷ []) = form_encode k ++ b'=' ∷ form_encode v
params_to_string ((k, v) ∷ p ∷ ps) =
    form_encode k ++ b'=' ∷ (form_encode v ++ b'&' ∷ params_to_string (p ∷ ps))
