-- ===== src/Text/Defs.antt =====
-- `trim`, `startsWith`, `endsWith`, `includes`, `slice` and `split` of JavaScript strings.
use Prim.Native.Char.{code}
use split_proxy.Base.{
  ℕ, zero, suc, Bool, true, false, ◌&&◌, ◌||◌, Text, List, [], ◌∷◌, String, leb, nat_beq, text_beq,
  if◌then◌else◌,
}

-- The code units of an ASCII text.
abbrev pub codes : String → Text
codes String.[] = []
codes (String.◌∷◌ c s) = code c ∷ codes s

-- White space and line terminators of the language: TAB, LF, VT, FF, CR, SP, NBSP, the other
-- spaces of Unicode, the line and paragraph separators, and the byte order mark.
unfoldable pub is_space : ℕ → Bool
is_space c =
    leb 9 c && leb c 13
    || nat_beq c 32
    || nat_beq c 160
    || nat_beq c 0x1680
    || leb 0x2000 c && leb c 0x200A
    || nat_beq c 0x2028
    || nat_beq c 0x2029
    || nat_beq c 0x202F
    || nat_beq c 0x205F
    || nat_beq c 0x3000
    || nat_beq c 0xFEFF

unfoldable pub trim_start : Text → Text
trim_start [] = []
trim_start (c ∷ s) = if is_space c then trim_start s else c ∷ s

-- White space is dropped where nothing but white space follows.
unfoldable pub trim_end : Text → Text
trim_end [] = []
trim_end (c ∷ s) = elim (trim_end s) [ [] ↦ if is_space c then [] else c ∷ [] | d ∷ t ↦ c ∷ d ∷ t ]

unfoldable pub trim : Text → Text
trim s = trim_end (trim_start s)

-- `s.startsWith(p)`, the pattern first.
unfoldable pub starts_with : Text → Text → Bool
starts_with [] s = true
starts_with (p ∷ ps) [] = false
starts_with (p ∷ ps) (c ∷ s) = nat_beq p c && starts_with ps s

unfoldable pub ends_with : Text → Text → Bool
ends_with p [] = text_beq p []
ends_with p (c ∷ s) = text_beq p (c ∷ s) || ends_with p s

-- `s.includes(c)` for a text of one code unit.
unfoldable pub includes : ℕ → Text → Bool
includes x [] = false
includes x (c ∷ s) = nat_beq c x || includes x s

-- `s.slice(n)`
unfoldable pub slice : ℕ → Text → Text
slice zero s = s
slice (suc n) [] = []
slice (suc n) (c ∷ s) = slice n s

-- One more code unit at the front of the first part.
abbrev pub onto_first : ℕ → List Text → List Text
onto_first c [] = (c ∷ []) ∷ []
onto_first c (p ∷ ps) = (c ∷ p) ∷ ps

-- `s.split(sep)` for a separator of one code unit.
unfoldable pub split : ℕ → Text → List Text
split sep [] = [] ∷ []
split sep (c ∷ s) = if nat_beq c sep then [] ∷ split sep s else onto_first c (split sep s)

-- One more code unit: a CR before a LF belongs to the separator.
abbrev pub line_step : ℕ → Text → List Text → List Text
line_step c s rest =
    if nat_beq c 10
    then [] ∷ rest
    else if nat_beq c 13 && starts_with (10 ∷ []) s
    then rest
    else onto_first c rest

-- `s.split(/\r?\n/)`
unfoldable pub lines : Text → List Text
lines [] = [] ∷ []
lines (c ∷ s) = line_step c s (lines s)
