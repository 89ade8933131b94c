-- ===== src/Text/Unicode.antt =====
-- From UTF-16 code units to code points and to bytes of UTF-8.
use split_proxy.Base.{
  ℕ, ◌+◌, ◌-◌, ◌*◌, ◌/◌, ◌%◌, Bool, ◌&&◌, Text, List, [], ◌∷◌, leb, ltb, if◌then◌else◌,
}

abbrev pub is_high : ℕ → Bool
is_high c = leb 0xD800 c && leb c 0xDBFF

abbrev pub is_low : ℕ → Bool
is_low c = leb 0xDC00 c && leb c 0xDFFF

-- One more code unit before code points that have been read; a high surrogate takes up a low one.
abbrev pub combine : ℕ → List ℕ → List ℕ
combine h [] = h ∷ []
combine h (l ∷ ps) =
    if is_high h && is_low l
    then (0x10000 + (h - 0xD800) * 0x400 + (l - 0xDC00)) ∷ ps
    else h ∷ l ∷ ps

-- The code points of a text: a high and a low surrogate make one, a lone surrogate stays.
unfoldable pub code_points : Text → List ℕ
code_points [] = []
code_points (c ∷ s) = combine c (code_points s)

abbrev pub is_surrogate : ℕ → Bool
is_surrogate p = leb 0xD800 p && leb p 0xDFFF

-- The bytes of one code point.
unfoldable pub utf8 : ℕ → List ℕ
utf8 p =
    if ltb p 0x80
    then p ∷ []
    else if ltb p 0x800
    then (0xC0 + p / 0x40 % 0x20) ∷ (0x80 + p % 0x40) ∷ []
    else if ltb p 0x10000
    then (0xE0 + p / 0x1000 % 0x10) ∷ (0x80 + p / 0x40 % 0x40) ∷ (0x80 + p % 0x40) ∷ []
    else (0xF0 + p / 0x40000 % 0x8)
      ∷ (0x80 + p / 0x1000 % 0x40)
      ∷ (0x80 + p / 0x40 % 0x40)
      ∷ (0x80 + p % 0x40)
      ∷ []
