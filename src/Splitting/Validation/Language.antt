-- ===== src/Splitting/Validation/Language.antt =====
-- The texts that a regular expression describes, and that the matcher accepts exactly those.
use mathlib.Core.List.{append-nil, append_assoc}
use split_proxy.Base.{
  ℕ, ◌≡◌, ◌⊎◌, ◌↔◌, inl, inr, refl, sym, ap, ◌∙◌, Bool, true, Text, [], ◌∷◌, ◌++◌, arith,
  Bool-cases,
}
use split_proxy.Splitting.Validation.{Regex, class, eps, seq, alt, matches, at_end, full_match}

abbrev pub Language : Regex → Text → Type 0
Language (class p) s = (c : ℕ) × (s ≡ c ∷ []) × (p c ≡ true)
Language eps s = s ≡ []
Language (seq a b) s = (x : Text) × (y : Text) × (s ≡ x ++ y) × Language a x × Language b y
Language (alt a b) s = Language a s ⊎ Language b s

-- A match splits the text in a described start and a rest that the continuation accepts.
matches_sound :
    (r : Regex) (s : Text) (k : Text → Bool)
    → matches r s k ≡ true
    → (x : Text) × (y : Text) × (s ≡ x ++ y) × Language r x × (k y ≡ true)
unfolding matches
matches_sound (class p) [] k h = cc
matches_sound (class p) (c ∷ s) k h = (c ∷ [], s, refl, (c, refl, ground arith), ground arith)
matches_sound eps s k h = ([], s, refl, refl, h)
matches_sound (seq a b) s k h =
    let (x, t, e, la, h') = matches_sound a s (λ t. matches b t k) h in
    let (y, z, e', lb, kz) = matches_sound b t k h' in
    (x ++ y, z, e ∙ (ap (λ t. x ++ t) e' ∙ sym (append_assoc x y z)), (x, y, refl, la, lb), kz)
matches_sound (alt a b) s k h = elim (Bool-cases (matches a s k)) [
  | inl left ↦ let (x, y, e, l, ky) = matches_sound a s k left in (x, y, e, inl l, ky)
  | inr right ↦ let (x, y, e, l, ky) = matches_sound b s k (ground arith) in (x, y, e, inr l, ky)
]

matches_complete :
    (r : Regex) (x y : Text) (k : Text → Bool)
    → Language r x
    → k y ≡ true
    → matches r (x ++ y) k ≡ true
unfolding matches
matches_complete (class p) x y k (c, e, pc) ky = rw (e, pc) ky
matches_complete eps x y k e ky = rw e ky
matches_complete (seq a b) x y k (v, w, e, la, lb) ky =
    rw (e, append_assoc v w y)
      (matches_complete a v (w ++ y) (λ t. matches b t k) la (matches_complete b w y k lb ky))
matches_complete (alt a b) x y k (inl l) ky = rw (matches_complete a x y k l ky)
matches_complete (alt a b) x y k (inr l) ky = ground (arith, matches_complete b x y k l ky)

-- The matcher accepts the whole text exactly when the expression describes it.
pub full_match_iff : (r : Regex) (s : Text) → (full_match r s ≡ true) ↔ Language r s
unfolding full_match
full_match_iff r s = (
  λ h. let (x, y, e, l, end) = matches_sound r s at_end h in ended x y e l end,
  λ l. rw (← append-nil s) (matches_complete r s [] at_end l refl),
)
  where
    ended : (x y : Text) → s ≡ x ++ y → Language r x → at_end y ≡ true → Language r s
    ended x [] e l end = rw (e ∙ append-nil x) l
    ended x (c ∷ y) e l end = cc
