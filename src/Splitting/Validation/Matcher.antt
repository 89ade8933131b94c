-- ===== src/Splitting/Validation/Matcher.antt =====
-- A backtracking matcher for the regular expressions of the page, without repetition: `{1,3}` and
-- `{3}` are written out.
use split_proxy.Base.{ℕ, Bool, true, false, ◌&&◌, ◌||◌, Text, [], ◌∷◌}

pub data Regex : Type 0 where
  class : (ℕ → Bool) → Regex
  eps : Regex
  seq alt : Regex → Regex → Regex

-- `matches r s k`: `r` matches a start of `s`, and `k` accepts what is left.
unfoldable pub matches : Regex → Text → (Text → Bool) → Bool
matches (class p) [] k = false
matches (class p) (c ∷ s) k = p c && k s
matches eps s k = k s
matches (seq a b) s k = matches a s (λ t. matches b t k)
matches (alt a b) s k = matches a s k || matches b s k

-- `$`
abbrev pub at_end : Text → Bool
at_end [] = true
at_end (c ∷ s) = false

-- `/^r$/.test(s)`
unfoldable pub full_match : Regex → Text → Bool
full_match r s = matches r s at_end
