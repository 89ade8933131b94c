-- ===== src/Text/Laws.antt =====
-- Laws of `split` and of `trim`.
use split_proxy.Base.{
  ℕ, ◌≤◌, ◌≡◌, ◌≢◌, ◌↔◌, refl, sym, ◌∙◌, ap, false, Text, List, [], ◌∷◌, ◌++◌, All, length, arith,
  nat_beq, nat_beq_iff, text_beq, text_beq_iff, if◌then◌else◌, Bool-cases, inl, inr,
}
use split_proxy.Text.Defs.{
  is_space, trim, trim_start, trim_end, starts_with, ends_with, includes, split, onto_first,
}

-- `parts.join(sep)` for a separator of one code unit.
unfoldable pub join : ℕ → List Text → Text
join sep [] = []
join sep (p ∷ []) = p
join sep (p ∷ q ∷ ps) = p ++ sep ∷ join sep (q ∷ ps)

abbrev pub Free : ℕ → Text → Type 0
Free sep s = includes sep s ≡ false

split-ne-nil : (sep : ℕ) (s : Text) → split sep s ≢ []
unfolding split
split-ne-nil sep [] = cc
split-ne-nil sep (c ∷ s) = grind (arith, split-ne-nil sep s)

join-onto_first :
    (sep c : ℕ) (ps : List Text) → ps ≢ [] → join sep (onto_first c ps) ≡ c ∷ join sep ps
unfolding join
join-onto_first sep c [] h = absurd (h refl)
join-onto_first sep c (p ∷ []) h = refl
join-onto_first sep c (p ∷ q ∷ ps) h = refl

join-nil : (sep : ℕ) (ps : List Text) → ps ≢ [] → join sep ([] ∷ ps) ≡ sep ∷ join sep ps
unfolding join
join-nil sep [] h = absurd (h refl)
join-nil sep (p ∷ ps) h = refl

-- The parts of a text, joined again, are the text.
pub join-split : (sep : ℕ) (s : Text) → join sep (split sep s) ≡ s
unfolding split
join-split sep [] = unfold join in refl
join-split sep (c ∷ s) = elim (Bool-cases (nat_beq c sep)) [
  | inl same ↦ rw same (
      join-nil sep (split sep s) (split-ne-nil sep s)
      ∙ (ap (λ t. sep ∷ t) (join-split sep s) ∙ ap (λ n. n ∷ s) (sym ((nat_beq_iff c sep).0 same))))
  | inr differ ↦ rw differ (
      join-onto_first sep c (split sep s) (split-ne-nil sep s) ∙ ap (λ t. c ∷ t) (join-split sep s))
]

-- No part of a split text holds the separator.
pub split-Free : (sep : ℕ) (s : Text) → All (Free sep) (split sep s)
unfolding split includes
split-Free sep [] = (refl, tt)
split-Free sep (c ∷ s) = onto (split sep s) (split-Free sep s)
  where
    onto :
        (ps : List Text)
        → All (Free sep) ps
        → All (Free sep) (if nat_beq c sep then [] ∷ ps else onto_first c ps)
    onto [] h = ground arith
    onto (p ∷ ps) h = ground arith

-- A text with no separator is one part, and what stands before a separator is the first part.
pub split_of_Free : (sep : ℕ) (s : Text) → Free sep s → split sep s ≡ s ∷ []
unfolding split includes
split_of_Free sep [] h = refl
split_of_Free sep (c ∷ s) h = ground (arith, split_of_Free sep s)

pub split-append : (sep : ℕ) (s t : Text) → Free sep s → split sep (s ++ sep ∷ t) ≡ s ∷ split sep t
unfolding split includes
split-append sep [] t h = ground arith
split-append sep (c ∷ s) t h = ground (arith, split-append sep s t)

-- Parts without the separator come back from their join.
pub split-join :
    (sep : ℕ) (p : Text) (ps : List Text)
    → All (Free sep) (p ∷ ps)
    → split sep (join sep (p ∷ ps)) ≡ p ∷ ps
unfolding join
split-join sep p [] h = split_of_Free sep p h.0
split-join sep p (q ∷ ps) h =
    split-append sep p (join sep (q ∷ ps)) h.0 ∙ ap (λ qs. p ∷ qs) (split-join sep q ps h.1)

-- Trimming twice is trimming once.
length-trim_start : (s : Text) → length (trim_start s) ≤ length s
unfolding trim_start
length-trim_start [] = omega arith
length-trim_start (c ∷ s) = ground (arith, length-trim_start s)

trim_start-ne : (c : ℕ) (s : Text) → trim_start s ≢ c ∷ s
trim_start-ne c s e = omega (arith, length-trim_start s, ap length e)

trim_end_idem : (s : Text) → trim_end (trim_end s) ≡ trim_end s
unfolding trim_end
trim_end_idem [] = refl
trim_end_idem (c ∷ s) = ground (arith, trim_end_idem s)

trim_end-cons : (c : ℕ) (s : Text) → is_space c ≡ false → trim_end (c ∷ s) ≡ c ∷ trim_end s
unfolding trim_end
trim_end-cons c s h = ground arith

-- What does not start with white space still does not when its end is trimmed.
trim_start-trim_end : (s : Text) → trim_start s ≡ s → trim_start (trim_end s) ≡ trim_end s
unfolding trim_start
trim_start-trim_end [] h = unfold trim_end in refl
trim_start-trim_end (c ∷ s) h = elim (Bool-cases (is_space c)) [
  | inl space ↦ absurd (trim_start-ne c s (rw (space, trim_start) at h))
  | inr other ↦ rw (trim_end-cons c s other, other) refl
]

trim_start_idem : (s : Text) → trim_start (trim_start s) ≡ trim_start s
unfolding trim_start
trim_start_idem [] = refl
trim_start_idem (c ∷ s) = ground (arith, trim_start_idem s)

pub trim_idem : (s : Text) → trim (trim s) ≡ trim s
unfolding trim
trim_idem s =
    rw (trim_start-trim_end (trim_start s) (trim_start_idem s)) (trim_end_idem (trim_start s))

-- A text that is trimmed stays so behind a character that is no white space.
pub trim-cons : (c : ℕ) (s : Text) → is_space c ≡ false → trim s ≡ s → trim (c ∷ s) ≡ c ∷ s
trim-cons c s h e =
    unfold trim trim_start in
    rw h (
      trim_end-cons c s h
      ∙ ap (λ t. c ∷ t) (ap trim_end (sym e) ∙ (trim_end_idem (trim_start s) ∙ e)))

pub Free-append : (x : ℕ) (s t : Text) → Free x s → Free x t → Free x (s ++ t)
unfolding includes
Free-append x [] t h k = k
Free-append x (c ∷ s) t h k = ground (arith, Free-append x s t)

pub join-Free :
    (x sep : ℕ) (ps : List Text) → nat_beq sep x ≡ false → All (Free x) ps → Free x (join sep ps)
unfolding join includes
join-Free x sep [] ne h = refl
join-Free x sep (p ∷ []) ne h = h.0
join-Free x sep (p ∷ q ∷ ps) ne h =
    Free-append x p (sep ∷ join sep (q ∷ ps)) h.0 (rw ne (join-Free x sep (q ∷ ps) ne h.1))

-- What starts and ends a text.
pub starts_with_one :
    (x : ℕ) (s : Text) → (starts_with (x ∷ []) s ≡ false) ↔ ((t : Text) → s ≢ x ∷ t)
unfolding starts_with
starts_with_one x [] = (λ h t e. cc, λ h. refl)
starts_with_one x (c ∷ s) = (
  λ h t e. ground arith,
  λ h. elim (Bool-cases (nat_beq x c)) [
    | inl same ↦ absurd (h s (ap (λ n. n ∷ s) (sym ((nat_beq_iff x c).0 same))))
    | inr differ ↦ rw differ
  ],
)

pub ends_with_one :
    (x : ℕ) (s : Text) → (ends_with (x ∷ []) s ≡ false) ↔ ((t : Text) → s ≢ t ++ x ∷ [])
unfolding ends_with
ends_with_one x [] = (λ h. elim [ [] ↦ λ e. cc | c ∷ t ↦ λ e. cc ], λ h. unfold text_beq in refl)
ends_with_one x (c ∷ s) = (
  λ h. elim [
    | [] ↦ λ e. ground (arith, (text_beq_iff (x ∷ []) (c ∷ s)).1 (sym e))
    | d ∷ t ↦ λ e. (ends_with_one x s).0 (ground arith) t (cc)
  ],
  λ h. elim (Bool-cases (text_beq (x ∷ []) (c ∷ s))) [
    | inl same ↦ absurd (h [] (sym ((text_beq_iff (x ∷ []) (c ∷ s)).0 same)))
    | inr differ ↦ rw differ ((ends_with_one x s).1 (λ t e. h (c ∷ t) (ap (λ r. c ∷ r) e)))
  ],
)
