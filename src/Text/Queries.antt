-- ===== src/Text/Queries.antt =====
-- Reading the query that `URLSearchParams` has written.
use mathlib.Core.Option
use mathlib.Core.List.{append_assoc}
use split_proxy.Base.{
  ℕ, ◌/◌, ◌%◌, ◌≡◌, ◌⊎◌, refl, sym, ◌∙◌, ap, inl, inr, true, false, Text, some, List, [], ◌∷◌, ◌++◌,
  map, flat_map, any, All, arith, nat_beq, nat_beq_iff, if◌then◌else◌, Bool-cases,
}
use split_proxy.Text.Defs.{includes, split}
use split_proxy.Text.Laws.{Free, Free-append, split_of_Free, split-append}
use split_proxy.Text.Unicode.{code_points, is_surrogate}
use split_proxy.Text.Encoding.{
  hex, percent, form_safe, form_byte, bytes, form_encode, params_to_string,
}
use split_proxy.Text.Decoding.{
  outside, unescape, decode_uri_component, form_decode, split_pair, read_pair, read_pairs, onto,
  read_query,
}
use split_proxy.Text.Utf8.{IsByte, IsUnit, bytes-IsByte}
use split_proxy.Text.RoundTrip.{KeepsEscapes, unescape-percent, text_of_bytes-bytes}

form_safe-KeepsEscapes : KeepsEscapes form_safe
form_safe-KeepsEscapes b h = ground arith

abbrev plus_as_space : Text → Text
plus_as_space s = map (λ c. if nat_beq c b'+' then 32 else c) s

plus_as_space-append : (s t : Text) → plus_as_space (s ++ t) ≡ plus_as_space s ++ plus_as_space t
plus_as_space-append [] t = refl
plus_as_space-append (c ∷ s) t =
    ap (λ r. (if nat_beq c b'+' then 32 else c) ∷ r) (plus_as_space-append s t)

hex-plus : (d : ℕ) → nat_beq (hex d) b'+' ≡ false
hex-plus d = ground arith

form_safe-plus : (b : ℕ) → form_safe b ≡ true → nat_beq b b'+' ≡ false
form_safe-plus b h = ground arith

-- A byte that is no space is written without a plus sign.
plus_as_space-percent : (b : ℕ) → plus_as_space (percent form_safe b) ≡ percent form_safe b
plus_as_space-percent b = elim (Bool-cases (form_safe b)) [
  | inl kept ↦ rw (kept, form_safe-plus b kept) refl
  | inr coded ↦ rw (coded, hex-plus (b / 16), hex-plus (b % 16)) refl
]

unescape-form_byte :
    (b : ℕ) (rest : Text)
    → IsByte b
    → unescape outside (plus_as_space (form_byte b) ++ rest)
      ≡ Option.map (λ bs. b ∷ bs) (unescape outside rest)
unescape-form_byte b rest h = elim (Bool-cases (nat_beq b 32)) [
  | inl space ↦ rw space (rw ((nat_beq_iff b 32).0 space) (unfold unescape in refl))
  | inr other ↦
      rw (other, plus_as_space-percent b)
        (unescape-percent form_safe b rest form_safe-KeepsEscapes h)
]

unescape-form_bytes :
    (bs : List ℕ)
    → All IsByte bs
    → unescape outside (plus_as_space (flat_map form_byte bs)) ≡ some bs
unescape-form_bytes [] h = unfold unescape in refl
unescape-form_bytes (b ∷ bs) h =
    ap (unescape outside) (plus_as_space-append (form_byte b) (flat_map form_byte bs))
    ∙ unescape-form_byte b (plus_as_space (flat_map form_byte bs)) h.0
    ∙ ap (Option.map (λ cs. b ∷ cs)) (unescape-form_bytes bs h.1)

-- A text of code units without a lone surrogate.
abbrev pub IsWhole : Text → Type 0
IsWhole s = All IsUnit s × (any is_surrogate (code_points s) ≡ false)

abbrev replaced : ℕ → ℕ
replaced p = if is_surrogate p then 0xFFFD else p

map-replaced : (ps : List ℕ) → any is_surrogate ps ≡ false → map replaced ps ≡ ps
map-replaced [] h = refl
map-replaced (p ∷ ps) h = elim (Bool-cases (is_surrogate p)) [
  | inl lone ↦ cc (rw lone at h)
  | inr whole ↦ rw whole (ap (λ qs. p ∷ qs) (map-replaced ps (rw whole at h)))
]

pub form_decode-form_encode : (s : Text) → IsWhole s → form_decode (form_encode s) ≡ some s
unfolding form_decode form_encode decode_uri_component Option.bind
form_decode-form_encode s h =
    rw
      (
        map-replaced (code_points s) h.1,
        unescape-form_bytes (bytes (code_points s)) (bytes-IsByte (code_points s)),
      )
      (text_of_bytes-bytes s h.0)

-- What separates the parts of a query.
abbrev Separator : ℕ → Type 0
Separator x = (x ≡ b'&') ⊎ (x ≡ b'=')

hex-Separator : (x d : ℕ) → Separator x → nat_beq (hex d) x ≡ false
hex-Separator x d h = ground arith

form_safe-Separator : (x b : ℕ) → Separator x → form_safe b ≡ true → nat_beq b x ≡ false
form_safe-Separator x b (inl e) k = rw e (ground arith)
form_safe-Separator x b (inr e) k = rw e (ground arith)

percent_sign-Separator : (x : ℕ) → Separator x → nat_beq b'%' x ≡ false
percent_sign-Separator x h = ground arith

plus-Separator : (x : ℕ) → Separator x → nat_beq b'+' x ≡ false
plus-Separator x h = ground arith

form_byte-Free : (x b : ℕ) → Separator x → Free x (form_byte b)
unfolding includes
form_byte-Free x b h = elim (Bool-cases (nat_beq b 32)) [
  | inl space ↦ rw (space, plus-Separator x h) refl
  | inr other ↦ elim (Bool-cases (form_safe b)) [
    | inl kept ↦ rw (other, kept, form_safe-Separator x b h kept) refl
    | inr coded ↦
        rw
          (
            other,
            coded,
            percent_sign-Separator x h,
            hex-Separator x (b / 16) h,
            hex-Separator x (b % 16) h,
          )
          refl
  ]
]

form_bytes-Free : (x : ℕ) (bs : List ℕ) → Separator x → Free x (flat_map form_byte bs)
form_bytes-Free x [] h = unfold includes in refl
form_bytes-Free x (b ∷ bs) h =
    Free-append x (form_byte b) (flat_map form_byte bs) (form_byte-Free x b h)
      (form_bytes-Free x bs h)

form_encode-Free : (x : ℕ) (s : Text) → Separator x → Free x (form_encode s)
unfolding form_encode
form_encode-Free x s h = form_bytes-Free x (bytes (map replaced (code_points s))) h

abbrev pair_text : Text → Text → Text
pair_text k v = form_encode k ++ b'=' ∷ form_encode v

split_pair-append : (k v : Text) → Free b'=' k → split_pair (k ++ b'=' ∷ v) ≡ (k, v)
unfolding split_pair includes
split_pair-append [] v h = refl
split_pair-append (c ∷ k) v h = elim (Bool-cases (nat_beq c b'=')) [
  | inl same ↦ cc (rw same at h)
  | inr other ↦ rw (other, split_pair-append k v (rw other at h)) refl
]

read_pair-pair_text : (k v : Text) → IsWhole k → IsWhole v → read_pair (pair_text k v) ≡ some (k, v)
unfolding read_pair
read_pair-pair_text k v hk hv =
    rw
      (
        split_pair-append (form_encode k) (form_encode v) (form_encode-Free b'=' k (inr refl)),
        form_decode-form_encode k hk,
        form_decode-form_encode v hv,
      )
      refl

-- A part that holds `=` is not empty, so it is read.
read_pairs-cons :
    (k v : Text) (ss : List Text)
    → read_pairs ((k ++ b'=' ∷ v) ∷ ss) ≡ onto (read_pair (k ++ b'=' ∷ v)) (read_pairs ss)
unfolding read_pairs
read_pairs-cons [] v ss = refl
read_pairs-cons (c ∷ k) v ss = refl

pair_text-Free : (k v : Text) → Free b'&' (pair_text k v)
unfolding includes
pair_text-Free k v =
    Free-append b'&' (form_encode k) (b'=' ∷ form_encode v) (form_encode-Free b'&' k (inl refl))
      (form_encode-Free b'&' v (inl refl))

abbrev pub AreWhole : List (Text × Text) → Type 0
AreWhole ps = All (λ p. IsWhole p.0 × IsWhole p.1) ps

read_first :
    (k v : Text) (ss : List Text) {ps : List (Text × Text)}
    → IsWhole k
    → IsWhole v
    → read_pairs ss ≡ some ps
    → read_pairs (pair_text k v ∷ ss) ≡ some ((k, v) ∷ ps)
read_first k v ss hk hv h =
    read_pairs-cons (form_encode k) (form_encode v) ss ∙ rw (read_pair-pair_text k v hk hv, h) refl

-- A query reads back as the parameters that it was made of.
pub read_query-params_to_string :
    (ps : List (Text × Text)) → AreWhole ps → read_query (params_to_string ps) ≡ some ps
unfolding read_query params_to_string
read_query-params_to_string [] h = unfold split read_pairs in refl
read_query-params_to_string ((k, v) ∷ []) h =
    rw (split_of_Free b'&' (pair_text k v) (pair_text-Free k v))
      (read_first k v [] h.0.0 h.0.1 (unfold read_pairs in refl))
read_query-params_to_string ((k, v) ∷ p ∷ ps) h =
    ap (λ t. read_pairs (split b'&' t))
      (sym (append_assoc (form_encode k) (b'=' ∷ form_encode v) (b'&' ∷ params_to_string (p ∷ ps))))
    ∙ rw (split-append b'&' (pair_text k v) (params_to_string (p ∷ ps)) (pair_text-Free k v)) (
        read_first k v (split b'&' (params_to_string (p ∷ ps))) h.0.0 h.0.1
          (read_query-params_to_string (p ∷ ps) h.1))
