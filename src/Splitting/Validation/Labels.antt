-- ===== src/Splitting/Validation/Labels.antt =====
-- Texts that `isValidDomain` takes apart: code points, the wildcard, and joined labels.
use split_proxy.Base.{
  ℕ, ◌≤◌, ◌<◌, ◌≡◌, ◌↔◌, refl, ap, Bool, true, false, not, Text, List, [], ◌∷◌, All, every, length,
  arith, nat_beq, nat_beq_iff, Bool-cases, inl, inr,
}
use split_proxy.Text.{code_points, combine, codes, starts_with, includes, slice, split}
use split_proxy.Text.Laws.{Free, join, split-join}

pub every_iff :
    {A : Type 0} (p : A → Bool) (xs : List A) → (every p xs ≡ true) ↔ All (λ x. p x ≡ true) xs
every_iff p [] = (λ h. tt, λ h. refl)
every_iff p (x ∷ xs) = (λ h. ground (arith, every_iff p xs), λ h. ground (arith, every_iff p xs))

-- A code unit that is no surrogate is in the text only if it is one of its code points.
abbrev other_than : ℕ → ℕ → Bool
other_than x q = not (nat_beq q x)

combine-other_than :
    (x h : ℕ) (ps : List ℕ)
    → x < 0xD800
    → every (other_than x) (combine h ps) ≡ true
    → (nat_beq h x ≡ false) × (every (other_than x) ps ≡ true)
combine-other_than x h [] lt e = ground arith
combine-other_than x h (l ∷ ps) lt e = ground arith

pub code_points-Free :
    (x : ℕ) (s : Text) → x < 0xD800 → every (other_than x) (code_points s) ≡ true → Free x s
unfolding code_points includes
code_points-Free x [] lt e = refl
code_points-Free x (c ∷ s) lt e =
    let (differ, later) = combine-other_than x c (code_points s) lt e in
    rw differ (code_points-Free x s lt later)

pub every-other_than :
    (p : ℕ → Bool) (x : ℕ) (ps : List ℕ)
    → p x ≡ false
    → All (λ q. p q ≡ true) ps
    → every (other_than x) ps ≡ true
every-other_than p x [] n h = refl
every-other_than p x (q ∷ ps) n h = elim (Bool-cases (nat_beq q x)) [
  | inl same ↦ cc (ap p ((nat_beq_iff q x).0 same), h.0)
  | inr differ ↦ rw differ (every-other_than p x ps n h.1)
]

pub combine-ne-nil : (h : ℕ) (ps : List ℕ) → nat_beq (length (combine h ps)) 0 ≡ false
combine-ne-nil h [] = ground arith
combine-ne-nil h (l ∷ ps) = ground arith

pub wildcard-slice : (d : Text) → starts_with (codes "*.") d ≡ true → d ≡ b'*' ∷ b'.' ∷ slice 2 d
unfolding starts_with slice
wildcard-slice [] h = cc
wildcard-slice (a ∷ []) h = ground arith
wildcard-slice (a ∷ b ∷ d) h = ground arith

-- A text with no star is no wildcard.
pub wildcard_of_Free : (d : Text) → Free b'*' d → starts_with (codes "*.") d ≡ false
unfolding starts_with includes
wildcard_of_Free [] h = refl
wildcard_of_Free (c ∷ d) h = ground arith

pub join_two-ne-nil :
    (labels : List Text) → 2 ≤ length labels → nat_beq (length (join b'.' labels)) 0 ≡ false
unfolding join
join_two-ne-nil [] h = absurd (omega arith)
join_two-ne-nil (l ∷ []) h = absurd (omega arith)
join_two-ne-nil ([] ∷ m ∷ ls) h = ground arith
join_two-ne-nil ((c ∷ l) ∷ m ∷ ls) h = ground arith

pub split-join_two :
    (labels : List Text)
    → 2 ≤ length labels
    → All (Free b'.') labels
    → split b'.' (join b'.' labels) ≡ labels
split-join_two [] h f = absurd (omega arith)
split-join_two (l ∷ ls) h f = split-join b'.' l ls f
